-- ===== src/I18n/Messages/ZhCn/Part4.antt =====
-- web/src/lib/i18n/messages/zh-CN.ts, lines 435 to 574.
use purels.Base.{List, String, [], ◌∷◌}
use purels.I18n.Message.{Message, plain}

unfoldable pub zh_cn_part4 : List (String × Message)
zh_cn_part4 =
    ("deviceRule.bot", plain "爬虫")
    ∷ ("deviceRule.unknown", plain "未知")
    ∷ ("deviceStat.mobile", plain "移动")
    ∷ ("deviceStat.tablet", plain "平板")
    ∷ ("deviceStat.desktop", plain "桌面")
    ∷ ("deviceStat.bot", plain "机器人")
    ∷ ("deviceStat.unknown", plain "未知")
    ∷ ("qr.alt", plain "/{alias} 的二维码")
    ∷ ("qr.download", plain "下载 PNG")
    ∷ ("stats.title", plain "数据统计")
    ∷ ("stats.range.today", plain "今天")
    ∷ ("stats.range.7d", plain "近 7 天")
    ∷ ("stats.range.30d", plain "近 30 天")
    ∷ ("stats.range.90d", plain "近 90 天")
    ∷ ("stats.range.365d", plain "近 365 天")
    ∷ ("stats.noClicks", plain "该区间暂无点击。")
    ∷ ("stats.peak", plain "单日峰值 {count}")
    ∷ ("stats.pointTitle", plain "{day} · {count} 次点击")
    ∷ ("stats.clicksInRange", plain "区间点击")
    ∷ ("stats.uniqueVisitors", plain "独立访客")
    ∷ ("stats.totalLinks", plain "总链接数")
    ∷ ("stats.trend", plain "全局点击趋势")
    ∷ ("stats.exportCsv", plain "导出 CSV")
    ∷ ("stats.ranking", plain "点击排行")
    ∷ ("stats.most", plain "最多")
    ∷ ("stats.fewest", plain "最少")
    ∷ ("stats.emptyRanking", plain "该区间暂无点击数据。")
    ∷ ("stats.exportRanking", plain "导出排行 CSV")
    ∷ ("stats.referrers", plain "来源分布")
    ∷ ("stats.devices", plain "设备分布")
    ∷ ("stats.direct", plain "直接访问")
    ∷ ("stats.emptyReferrers", plain "该区间暂无来源数据。")
    ∷ ("stats.emptyDevices", plain "该区间暂无设备数据。")
    ∷ ("stats.linkDetail", plain "单链接明细")
    ∷ ("stats.selectLink", plain "选择一条链接…")
    ∷ ("stats.loading", plain "加载中…")
    ∷ ("stats.totalClicks", plain "累计点击")
    ∷ ("stats.dailyClicks", plain "按天点击")
    ∷ ("stats.clickLog", plain "点击明细")
    ∷ ("stats.emptyClicks", plain "该区间暂无点击记录。")
    ∷ ("stats.recentClicks", plain "最近点击")
    ∷ ("stats.table.short", plain "短链接")
    ∷ ("stats.table.clicks", plain "点击")
    ∷ ("stats.table.referrer", plain "来源")
    ∷ ("stats.table.time", plain "时间")
    ∷ ("stats.table.userAgent", plain "用户代理")
    ∷ ("stats.csv.rank", plain "排名")
    ∷ ("stats.csv.destination", plain "目标地址")
    ∷ ("stats.csv.date", plain "日期")
    ∷ ("stats.loadFailed", plain "加载失败")
    ∷ ("stats.loadRankingFailed", plain "加载排行失败")
    ∷ ("stats.loadDetailFailed", plain "加载明细失败")
    ∷ ("stats.loadClicksFailed", plain "加载点击明细失败")
    ∷ ("audit.title", plain "操作日志")
    ∷ ("audit.allActions", plain "全部动作")
    ∷ ("audit.table.time", plain "时间")
    ∷ ("audit.table.actor", plain "操作人")
    ∷ ("audit.table.action", plain "动作")
    ∷ ("audit.table.detail", plain "详情")
    ∷ ("audit.emptyFiltered", plain "该动作暂无记录。")
    ∷ ("audit.empty", plain "暂无操作记录。")
    ∷ ("audit.filterLabel", plain "按操作筛选")
    ∷ ("home.skipToMain", plain "跳到页面内容")
    ∷ ("audit.loadFailed", plain "加载失败")
    ∷ ("audit.action.link.create", plain "创建链接")
    ∷ ("audit.action.link.update", plain "更新链接")
    ∷ ("audit.action.link.delete", plain "删除链接")
    ∷ ("audit.action.link.import", plain "导入链接")
    ∷ ("audit.action.link.bulk", plain "批量操作")
    ∷ ("audit.action.token.create", plain "创建 Token")
    ∷ ("audit.action.token.revoke", plain "撤销 Token")
    ∷ ("audit.action.session.login", plain "登录")
    ∷ ("audit.action.session.logout", plain "退出登录")
    ∷ ("audit.action.session.2fa", plain "两步验证登录")
    ∷ ("audit.action.user.register", plain "注册账号")
    ∷ ("audit.action.user.update", plain "更新用户")
    ∷ ("audit.action.user.2fa_enroll", plain "绑定两步验证")
    ∷ ("audit.action.user.2fa_disable", plain "关闭两步验证")
    ∷ ("audit.action.user.2fa_reset", plain "重置两步验证")
    ∷ ("audit.action.role.update", plain "修改角色")
    ∷ ("audit.action.oidc.create", plain "新增登录方式")
    ∷ ("audit.action.oidc.update", plain "修改登录方式")
    ∷ ("audit.action.oidc.delete", plain "删除登录方式")
    ∷ ("audit.action.analytics.update", plain "修改数据统计配置")
    ∷ ("audit.action.captcha.update", plain "修改注册保护")
    ∷ ("audit.action.runtime_settings.update", plain "修改站点策略")
    ∷ ("users.title", plain "用户管理")
    ∷ ("users.directoryTitle", plain "账号目录")
    ∷ ("users.directoryDescription", plain "查看登录来源、角色分配、账号状态和两步验证情况。")
    ∷ ("users.table.username", plain "用户名")
    ∷ ("users.table.source", plain "登录来源")
    ∷ ("users.table.role", plain "角色")
    ∷ ("users.table.status", plain "状态")
    ∷ ("users.table.mfa", plain "两步验证")
    ∷ ("users.table.created", plain "注册时间")
    ∷ ("users.table.actions", plain "操作")
    ∷ ("users.self", plain "当前账号")
    ∷ ("users.status.active", plain "正常")
    ∷ ("users.status.disabled", plain "已禁用")
    ∷ ("users.mfa.enabled", plain "已启用")
    ∷ ("users.mfa.disabled", plain "未启用")
    ∷ ("users.source.password", plain "密码")
    ∷ ("users.source.oidc", plain "OIDC")
    ∷ ("users.resetMfa", plain "重置")
    ∷ ("users.resetMfaTitle", plain "重置两步验证？")
    ∷ ("users.resetMfaSubject", plain "{username} 将失去当前绑定的两步验证。")
    ∷ ("users.resetMfaHint", plain "在重新绑定前，该账号可仅用密码登录。这是加密密钥变更后唯一的恢复方式。")
    ∷ ("users.resetMfaConfirm", plain "重置两步验证")
    ∷ ("users.enable", plain "启用")
    ∷ ("users.disable", plain "禁用")
    ∷ ("users.empty", plain "暂无用户。")
    ∷ ("settings.saved", plain "已保存")
    ∷ ("settings.unsaved", plain "有未保存更改")
    ∷ ("settings.synced", plain "已同步")
    ∷ ("settings.configured", plain "已配置")
    ∷ ("settings.notConfigured", plain "未配置")
    ∷ ("settings.leaveBlank", plain "（留空保持不变）")
    ∷ ("settings.home.title", plain "设置")
    ∷ ("settings.home.description", plain "配置访问权限、保护服务，并决定链接的运行方式。")
    ∷ ("settings.home.overviewDescription", plain "从一个入口查看所有配置区域。")
    ∷ ("settings.home.accessDescription", plain "管理用户、角色以及登录方式。")
    ∷ ("settings.home.securityDescription", plain "保护管理账号和公开注册入口。")
    ∷ ("settings.home.linksDescription", plain "配置短码、跳转、后台任务和访问限流。")
    ∷ ("settings.home.analyticsDescription", plain "连接接收访问数据的统计工具。")
    ∷ ("settings.home.usersDescription", plain "查看账号、角色、登录来源和账号状态。")
    ∷ ("settings.home.rolesDescription", plain "决定每个角色可以使用后台的哪些功能。")
    ∷ ("settings.home.oidcDescription", plain "配置外部身份提供商和回调地址。")
    ∷ ("settings.home.securityPageDescription", plain "配置两步验证和 API Token。")
    ∷ ("settings.home.captchaDescription", plain "为公开注册入口增加 Turnstile 防护。")
    ∷ ("settings.home.runtimeDescription", plain "设置短码、跳转、后台任务和访问限流规则。")
    ∷ (
      "settings.home.analyticsPageDescription",
      plain "配置 GA4、Google Tag Manager、Google 代码、Matomo 与 Clarity。",
    )
    ∷ ("settings.home.manage", plain "管理")
    ∷ ("settings.home.pageCount", plain "{count} 个页面")
    ∷ ("settings.home.noAccess", plain "当前账号没有可用的设置项。")
    ∷ []
