-- ===== src/I18n/Messages/ZhCn/Part1.antt =====
-- web/src/lib/i18n/messages/zh-CN.ts, lines 15 to 154.
use purels.Base.{List, String, [], ◌∷◌}
use purels.I18n.Message.{Message, plain}

unfoldable pub zh_cn_part1 : List (String × Message)
zh_cn_part1 =
    ("settings.guard.title", plain "存在未保存修改")
    ∷ ("settings.guard.description", plain "当前页面的修改尚未保存，离开后将丢失这些修改。")
    ∷ ("settings.guard.keepEditing", plain "继续编辑")
    ∷ ("settings.guard.discardLeave", plain "放弃并离开")
    ∷ ("settings.nav.description", plain "统一管理链接、注册登录、用户权限、流量防护和统计集成。")
    ∷ ("settings.nav.links", plain "链接")
    ∷ ("settings.nav.linksDescription", plain "配置短链创建、跳转策略、健康检查与过期清理。")
    ∷ ("settings.nav.registration", plain "注册与登录")
    ∷ ("settings.nav.registrationDescription", plain "管理本地账号注册、内置双因素和第三方登录方式。")
    ∷ ("settings.nav.access", plain "用户与权限")
    ∷ ("settings.nav.accessDescription", plain "管理账号状态，决定各角色可以使用的功能。")
    ∷ ("settings.nav.traffic", plain "流量防护")
    ∷ ("settings.nav.trafficDescription", plain "设置登录注册、API 和短链跳转的请求限额。")
    ∷ ("settings.nav.analytics", plain "统计与集成")
    ∷ ("settings.nav.analyticsDescription", plain "调整短链统计口径，连接控制台的外部统计工具。")
    ∷ ("settings.nav.creation", plain "创建与域名")
    ∷ ("settings.nav.redirects", plain "跳转与目标")
    ∷ ("settings.nav.maintenance", plain "检查与清理")
    ∷ ("settings.nav.publicRegistration", plain "本地账号")
    ∷ ("settings.nav.thirdParty", plain "第三方登录")
    ∷ ("settings.nav.healthEnabled", plain "健康检查已启用")
    ∷ ("settings.nav.healthDisabled", plain "健康检查未启用")
    ∷ ("settings.nav.cleanupEnabled", plain "自动清理已启用")
    ∷ ("settings.nav.cleanupDisabled", plain "自动清理未启用")
    ∷ ("settings.nav.registrationOpen", plain "本地账号注册已开放")
    ∷ ("settings.nav.registrationClosed", plain "本地账号注册已关闭")
    ∷ ("settings.nav.totpEnabled", plain "双因素认证已启用")
    ∷ ("settings.nav.totpDisabled", plain "双因素认证未启用")
    ∷ ("settings.nav.captchaEnabled", plain "注册验证已启用")
    ∷ ("settings.nav.captchaDisabled", plain "注册验证未启用")
    ∷ ("settings.nav.oidcEnabled", plain "已启用 {count} 个第三方登录")
    ∷ ("settings.nav.rateEnabled", plain "请求限流已启用")
    ∷ ("settings.nav.rateDisabled", plain "请求限流未启用")
    ∷ ("settings.nav.botsIncluded", plain "计入机器人访问")
    ∷ ("settings.nav.botsExcluded", plain "排除机器人访问")
    ∷ ("settings.nav.integrationsConfigured", plain "已配置 {count} 个控制台统计集成")
    ∷ ("settings.nav.statusUnavailable", plain "部分设置状态读取失败")
    ∷ ("settings.nav.retryStatus", plain "重新读取状态")
    ∷ ("settings.search.label", plain "查找设置")
    ∷ ("settings.search.placeholder", plain "搜索域名、注册、限流等设置…")
    ∷ ("settings.search.hint", plain "搜索后可直接进入对应页面或字段，仅显示你有权管理的设置。")
    ∷ ("settings.search.results", plain "设置搜索结果")
    ∷ ("settings.search.resultCount", plain "找到 {count} 个设置项")
    ∷ ("settings.search.empty", plain "没有找到匹配的设置，请尝试其他名称或关键词。")
    ∷ ("account.title", plain "我的账户")
    ∷ ("account.security", plain "账号安全")
    ∷ ("account.securityDescription", plain "管理你的两步验证和恢复码。")
    ∷ ("account.tokens", plain "API 令牌")
    ∷ ("account.tokensDescription", plain "创建和撤销供应用访问 API 的个人令牌。")
    ∷ ("account.tokensForbidden", plain "你没有管理 API 令牌的权限。")
    ∷ ("account.tokenSaved", plain "我已保存令牌")
    ∷ ("settings.form.retry", plain "重新加载")
    ∷ ("settings.form.forbidden", plain "你没有管理这些设置的权限。")
    ∷ ("settings.form.days", plain "天")
    ∷ ("settings.form.hours", plain "小时")
    ∷ ("settings.form.minutes", plain "分钟")
    ∷ ("settings.form.seconds", plain "秒")
    ∷ ("settings.form.unit", plain "时间单位")
    ∷ ("settings.form.invalidNumber", plain "请输入有效整数，时间需换算为完整秒数。")
    ∷ ("settings.form.inactive", plain "开关关闭时不生效，已保存数值会保留。")
    ∷ ("settings.form.conflict", plain "此页面打开后配置已被修改。你的编辑仍保留，请放弃修改并加载最新配置后重试。")
    ∷ ("settings.form.reload", plain "放弃修改并重新加载")
    ∷ ("settings.form.discard", plain "放弃修改")
    ∷ ("settings.form.save", plain "保存修改")
    ∷ ("settings.links.title", plain "链接设置")
    ∷ ("settings.links.description", plain "配置链接的创建方式、跳转策略，以及检查与清理规则。")
    ∷ ("settings.links.creation", plain "创建与域名")
    ∷ ("settings.links.redirects", plain "跳转与目标")
    ∷ ("settings.links.maintenance", plain "检查与清理")
    ∷ ("settings.creation.description", plain "设置创建链接时使用的默认规则和额度，对后续请求生效。")
    ∷ ("settings.redirects.description", plain "控制访问参数的转发、短码不存在时的处理，以及目标地址限制。")
    ∷ ("settings.maintenance.description", plain "检查目标地址是否可达，并决定过期链接保留多久。后台任务会读取更新后的配置。")
    ∷ ("settings.links.pruneWarning", plain "自动清理会永久删除过期链接及其点击历史，此操作无法撤销。")
    ∷ ("settings.registration.title", plain "注册与登录")
    ∷ ("settings.registration.local", plain "本地账号与双因素")
    ∷ ("settings.registration.description", plain "本地账号注册与内置双因素在此配置；OIDC 登录及其自动创建的账号单独设置。")
    ∷ ("settings.registration.oidcLink", plain "管理第三方登录与自动开户 →")
    ∷ ("settings.registration.limitsLink", plain "配置注册与登录的请求限流 →")
    ∷ ("settings.traffic.title", plain "流量防护")
    ∷ ("settings.traffic.description", plain "总开关控制以下所有请求限额。单位为每个客户端 IP 每分钟请求数，0 表示该项不限流。")
    ∷ ("settings.traffic.authentication", plain "登录与注册请求")
    ∷ ("settings.traffic.service", plain "API 与短链跳转")
    ∷ ("settings.statistics.title", plain "短链统计口径")
    ∷ ("settings.statistics.description", plain "决定内置短链统计报表计入哪些访问。")
    ∷ ("settings.statistics.pageTitle", plain "统计与集成")
    ∷ ("settings.statistics.pageDescription", plain "分别管理内置短链统计口径与面向全部页面的外部统计集成。")
    ∷ ("settings.captcha.provider", plain "Cloudflare Turnstile")
    ∷ ("settings.field.alias_mode", plain "随机短码区分大小写；顺序生成使用数字和字母（Base36）。")
    ∷ ("settings.field.unique_urls", plain "未指定自定义短码时，为同一用户复用相同目标地址的有效链接。")
    ∷ ("settings.field.max_links_per_user", plain "0 表示不限。拥有管理全部链接权限的账号不受此额度限制。")
    ∷ ("settings.field.short_domains", plain "每行一个裸域名。DNS 与证书需另行配置；默认域名仍由部署地址决定。")
    ∷ ("settings.field.forward_query", plain "将短链接上的查询参数转发到目标地址。")
    ∷ ("settings.field.fallback_url", plain "短码不存在时使用的 http(s) 地址。留空使用默认响应。")
    ∷ ("settings.field.destination_denylist", plain "每行一个域名，包含其子域名。创建或编辑目标地址和分流规则时检查。")
    ∷ ("settings.field.health_check_enabled", plain "定期检查链接目标地址是否可达。")
    ∷ ("settings.field.health_check_interval_seconds", plain "目标地址检查间隔，范围为 1 秒至 30 天。")
    ∷ ("settings.field.auto_prune_expired", plain "链接过期后，超过保留时间才会被自动删除。")
    ∷ ("settings.field.prune_grace_seconds", plain "从链接过期时开始计算。0 表示允许在下次清理任务中删除。")
    ∷ ("settings.field.registration_enabled", plain "控制公开的用户名与密码注册入口。OIDC 提供商仍可独立自动创建账号。")
    ∷ (
      "settings.field.totp_enabled",
      plain "仅对已完成绑定的账号发起验证。关闭后所有账号都不再需要第二因子，且不会解绑任何账号；该功能依赖 SECRET_ENCRYPTION_KEY 才能生效。",
    )
    ∷ ("settings.field.count_bots", plain "机器人访问始终会记录，此开关只决定报表是否将其计入。")
    ∷ ("settings.field.rate_limit_enabled", plain "对所有客户端 IP 应用下方请求限额。")
    ∷ ("settings.field.rate_limit_login", plain "每个 IP 每分钟允许的密码登录请求数。")
    ∷ ("settings.field.rate_limit_register", plain "每个 IP 每分钟允许的本地注册请求数。")
    ∷ ("settings.field.rate_limit_2fa", plain "每个 IP 每分钟允许的两步验证请求数。")
    ∷ ("settings.field.rate_limit_oidc", plain "每个 IP 每分钟允许的第三方登录及公开注册保护元数据请求数。")
    ∷ ("settings.field.rate_limit_api", plain "每个 IP 每分钟允许的已认证 API 请求数。")
    ∷ ("settings.field.rate_limit_redirect", plain "每个 IP 每分钟允许的短链跳转请求数。")
    ∷ ("app.title", plain "Purels 管理后台")
    ∷ ("app.description", plain "Purels 链接管理与运营后台")
    ∷ ("home.title", plain "Purels | 自托管短链接生成与数据统计平台")
    ∷ ("home.tagline", plain "开源的自托管短链接服务。")
    ∷ ("home.description", plain "Purels 是开源的自托管短链接服务，支持自定义域名、点击统计和团队管理。")
    ∷ ("home.nav.features", plain "功能")
    ∷ ("home.nav.how", plain "工作原理")
    ∷ ("home.nav.selfHost", plain "自托管")
    ∷ ("home.nav.faq", plain "常见问题")
    ∷ ("home.nav.signIn", plain "登录")
    ∷ ("home.nav.getStarted", plain "开始使用")
    ∷ ("home.nav.console", plain "控制台")
    ∷ ("home.hero.badge", plain "Apache-2.0 · 自托管")
    ∷ ("home.hero.title", plain "自托管短链接")
    ∷ ("home.hero.subhead", plain "开源的短链接服务。使用自己的域名创建链接，查看点击统计，与团队一起管理。")
    ∷ ("home.hero.ctaPrimary", plain "开始使用")
    ∷ ("home.hero.ctaSecondary", plain "登录控制台")
    ∷ ("home.hero.stat.deploy", plain "条部署命令")
    ∷ ("home.hero.stat.scopes", plain "个权限作用域")
    ∷ ("home.hero.stat.modes", plain "种访客地址模式")
    ∷ ("home.hero.mock.link", plain "短链接")
    ∷ ("home.hero.mock.links", plain "链接")
    ∷ ("home.hero.mock.clicks", plain "点击")
    ∷ ("home.hero.mock.visitors", plain "独立访客")
    ∷ ("home.hero.mock.trend", plain "近 7 天")
    ∷ ("home.features.title", plain "核心功能")
    ∷ ("home.feature.links.title", plain "短链接管理")
    ∷ ("home.feature.links.body", plain "创建短链接，自定义别名，并用标签和批量操作管理链接。")
    ∷ []
