-- ===== src/I18n/Messages/ZhCn/Part5.antt =====
-- web/src/lib/i18n/messages/zh-CN.ts, lines 575 to 714.
use purels.Base.{List, String, [], ◌∷◌}
use purels.I18n.Message.{Message, plain}

unfoldable pub zh_cn_part5 : List (String × Message)
zh_cn_part5 =
    ("settings.roles.title", plain "角色与权限")
    ∷ ("settings.roles.description", plain "为 Purels 的运营人员建立清晰、可控的权限组合。")
    ∷ ("settings.roles.saved", plain "已保存 {name}")
    ∷ ("settings.roles.unrestricted", plain "管理全部链接")
    ∷ ("settings.roles.unrestrictedDescription", plain "该角色可以管理整个部署中的全部链接。")
    ∷ ("settings.roles.group.links", plain "链接")
    ∷ ("settings.roles.group.workspace", plain "工作台")
    ∷ ("settings.roles.group.access", plain "账户与权限")
    ∷ ("settings.roles.group.service", plain "服务配置")
    ∷ ("scope.links:read", plain "查看链接")
    ∷ ("scope.links:write", plain "创建和修改链接")
    ∷ ("scope.stats:read", plain "查看统计")
    ∷ ("scope.audit:read", plain "查看操作日志")
    ∷ ("scope.tokens:manage", plain "管理自己的 API 令牌")
    ∷ ("scope.users:manage", plain "管理用户")
    ∷ ("scope.roles:manage", plain "管理角色权限")
    ∷ ("scope.oidc:manage", plain "管理登录方式")
    ∷ ("scope.analytics:manage", plain "管理外部统计集成")
    ∷ ("scope.captcha:manage", plain "管理注册保护")
    ∷ ("scope.settings:manage", plain "管理站点策略")
    ∷ ("settings.security.title", plain "账号安全")
    ∷ ("settings.security.description", plain "使用两步验证和权限明确的 API Token 保护管理账号。")
    ∷ ("settings.security.mfa", plain "两步验证")
    ∷ ("settings.security.enabled", plain "已启用")
    ∷ ("settings.security.notEnabled", plain "未启用")
    ∷ ("settings.security.unavailable", plain "部署未启用两步验证。")
    ∷ ("settings.security.recoveryWarning", plain "恢复码只显示这一次，请立即保存。")
    ∷ ("settings.security.recoverySaved", plain "我已保存")
    ∷ ("settings.security.qrAlt", plain "两步验证二维码")
    ∷ ("settings.security.secret", plain "密钥")
    ∷ ("settings.security.code", plain "验证码")
    ∷ ("settings.security.confirm", plain "确认")
    ∷ ("settings.security.codesRemaining", plain "剩余恢复码 {count}")
    ∷ ("settings.security.currentPassword", plain "当前密码")
    ∷ ("settings.security.turnOff", plain "关闭")
    ∷ ("settings.security.turnOn", plain "启用")
    ∷ ("settings.security.restart", plain "重新绑定")
    ∷ ("settings.security.tokensTitle", plain "创建 Token")
    ∷ ("settings.security.tokensDescription", plain "为自动化任务创建有名称的 Token。密钥只会显示一次。")
    ∷ ("settings.security.tokenWarning", plain "请立即保存 Token，之后不会再次显示。")
    ∷ ("settings.security.tokenCreated", plain "Token 已创建")
    ∷ ("settings.security.tokenRevoked", plain "Token 已撤销")
    ∷ ("settings.security.tokenName", plain "Token 名称")
    ∷ ("settings.security.create", plain "创建")
    ∷ ("settings.security.tokenList", plain "API Token")
    ∷ ("settings.security.noTokens", plain "暂无 Token")
    ∷ ("settings.security.revoke", plain "撤销")
    ∷ ("settings.oidc.title", plain "登录方式")
    ∷ ("settings.oidc.description", plain "连接外部身份提供商，并决定首次登录是否自动创建账号。")
    ∷ ("settings.oidc.noRedirectBase", plain "未确定回调地址前缀，请设置 OIDC_REDIRECT_BASE 后再配置登录方式。")
    ∷ ("settings.oidc.enable", plain "启用")
    ∷ ("settings.oidc.enabled", plain "已启用")
    ∷ ("settings.oidc.disabled", plain "已停用")
    ∷ ("settings.oidc.confirmDelete", plain "确认删除")
    ∷ ("settings.oidc.deleteWarning", plain "删除后绑定该登录方式的账号将无法登录，且应用内无法为它们设置密码。")
    ∷ ("settings.oidc.boundAccounts", plain "当前已绑定 {count} 个账号。")
    ∷ ("settings.oidc.name", plain "名称")
    ∷ ("settings.oidc.issuer", plain "Issuer 地址")
    ∷ ("settings.oidc.clientId", plain "Client ID")
    ∷ ("settings.oidc.clientSecret", plain "Client Secret")
    ∷ ("settings.oidc.scopes", plain "Scopes")
    ∷ ("settings.secretSet", plain "已设置")
    ∷ ("settings.secretUnset", plain "未设置")
    ∷ ("settings.oidc.autoProvision", plain "首次登录自动创建账号")
    ∷ ("settings.oidc.callback", plain "回调地址")
    ∷ ("settings.oidc.newTitle", plain "新增登录方式")
    ∷ ("settings.oidc.newDescription", plain "添加一次登录提供商，然后将回调地址复制到对方控制台。")
    ∷ ("settings.oidc.providerListDescription", plain "查看已配置的登录方式、回调地址和绑定账号数量。")
    ∷ ("settings.oidc.slug", plain "标识（用于回调地址，创建后不可改）")
    ∷ ("settings.oidc.namePlaceholder", plain "公司账号")
    ∷ ("settings.oidc.clientSecretNew", plain "Client Secret（公开客户端可留空）")
    ∷ ("settings.oidc.add", plain "新增")
    ∷ ("settings.oidc.adding", plain "正在新增...")
    ∷ ("settings.oidc.created", plain "已新增登录方式")
    ∷ ("settings.oidc.saved", plain "已保存 {name}")
    ∷ ("settings.oidc.deleted", plain "已删除 {name}")
    ∷ ("settings.oidc.noPermission", plain "没有权限管理登录方式。")
    ∷ ("settings.analytics.title", plain "外部统计集成")
    ∷ (
      "settings.analytics.description",
      plain "把第三方统计加载到本部署提供的所有页面：落地页、登录与注册、管理控制台，以及短链的延迟中转页和预览页。短链跳转本身是 302，不经过页面，无法统计。",
    )
    ∷ ("settings.analytics.providersTitle", plain "全部页面的外部统计")
    ∷ (
      "settings.analytics.providersDescription",
      plain "这些集成会统计本部署的每一个页面，不只是控制台。不使用的服务留空即可；Matomo 需同时填写地址和站点 ID。",
    )
    ∷ ("settings.analytics.configuredCount", plain "已配置 {count} 个服务")
    ∷ ("settings.analytics.ga4Description", plain "用 Google Analytics 4 衡量页面访问。")
    ∷ ("settings.analytics.gtmDescription", plain "加载 Google Tag Manager 容器，由容器内的触发器决定上报内容。")
    ∷ (
      "settings.analytics.googleTagDescription",
      plain "加载 Google 代码（gtag.js）。它与 GTM 容器是两种不同的 ID，互不通用。",
    )
    ∷ ("settings.analytics.matomoDescription", plain "把页面访问发送到你的 Matomo 实例。")
    ∷ (
      "settings.analytics.clarityDescription",
      plain "加载 Microsoft Clarity，录制会话并生成热图，采集范围比单纯的访问统计更大。",
    )
    ∷ ("settings.analytics.ga4", plain "GA4 衡量 ID")
    ∷ ("settings.analytics.gtm", plain "GTM 容器 ID")
    ∷ ("settings.analytics.googleTag", plain "Google 代码 ID")
    ∷ ("settings.analytics.matomoUrl", plain "Matomo 地址")
    ∷ ("settings.analytics.matomoSiteId", plain "Matomo 站点 ID")
    ∷ ("settings.analytics.clarity", plain "Clarity 项目 ID")
    ∷ ("settings.analytics.noPermission", plain "没有权限管理数据统计。")
    ∷ ("settings.analytics.invalidGa4", plain "GA4 衡量 ID 格式不正确，应形如 G-XXXXXXXXXX。")
    ∷ ("settings.analytics.invalidGtm", plain "GTM 容器 ID 格式不正确，应形如 GTM-XXXXXXX。")
    ∷ (
      "settings.analytics.invalidGoogleTag",
      plain "Google 代码 ID 格式不正确，应形如 GT-XXXXXXXXXX（注意不是 GTM- 开头）。",
    )
    ∷ ("settings.analytics.invalidMatomoUrl", plain "Matomo 地址格式不正确，应是不带凭据、查询串和片段的 http(s) 地址。")
    ∷ ("settings.analytics.missingMatomoSiteId", plain "填写了 Matomo 地址，还需要站点 ID。")
    ∷ ("settings.analytics.invalidMatomoSiteId", plain "Matomo 站点 ID 格式不正确，应为正整数。")
    ∷ ("settings.analytics.invalidClarity", plain "Clarity 项目 ID 格式不正确，应是一串小写字母和数字，例如 ymutupw1dp。")
    ∷ ("settings.captcha.title", plain "注册保护")
    ∷ ("settings.captcha.description", plain "使用 Cloudflare Turnstile 阻止自动化程序提交公开注册表单。")
    ∷ ("settings.captcha.providerDescription", plain "新账号创建前会先完成 Turnstile 校验。")
    ∷ ("settings.captcha.enable", plain "启用")
    ∷ ("settings.captcha.siteKey", plain "站点密钥")
    ∷ ("settings.captcha.secretKey", plain "密钥")
    ∷ ("settings.captcha.expectedHostname", plain "预期主机名")
    ∷ ("settings.captcha.expectedAction", plain "预期动作")
    ∷ ("settings.captcha.noPermission", plain "没有权限管理注册保护。")
    ∷ ("settings.runtime.title", plain "链接与运行规则")
    ∷ ("settings.runtime.description", plain "控制短码生成、跳转、后台任务和访问限流。修改后会保存到数据库，无需重启服务。")
    ∷ ("settings.runtime.linksTitle", plain "链接与跳转")
    ∷ ("settings.runtime.linksDescription", plain "控制短码生成、重复链接、域名和目标地址策略。")
    ∷ ("settings.runtime.accessTitle", plain "公开访问与流量")
    ∷ ("settings.runtime.accessDescription", plain "决定访客是否可以注册，以及哪些访问会计入统计。")
    ∷ ("settings.runtime.aliasMode", plain "短码生成方式")
    ∷ ("settings.runtime.aliasRandom", plain "随机（区分大小写）")
    ∷ ("settings.runtime.aliasSequential", plain "顺序生成（Base36）")
    ∷ ("settings.runtime.maxLinks", plain "单个用户链接上限（0 表示不限）")
    ∷ ("settings.runtime.fallbackUrl", plain "找不到短码时跳转地址")
    ∷ ("settings.runtime.shortDomains", plain "可用短域名")
    ∷ ("settings.runtime.denylist", plain "目标域名黑名单")
    ∷ ("settings.runtime.hostHelp", plain "每行一个裸域名，也支持逗号分隔；保存时会统一小写并去重。")
    ∷ ("settings.runtime.uniqueUrls", plain "同一用户重复目标地址复用已有链接")
    ∷ ("settings.runtime.registration", plain "允许本地账号注册")
    ∷ ("settings.runtime.totpEnabled", plain "启用内置双因素认证（TOTP）")
    ∷ ("settings.runtime.forwardQuery", plain "重定向时转发查询参数")
    ∷ ("settings.runtime.countBots", plain "统计机器人访问")
    ∷ ("settings.runtime.jobsTitle", plain "后台任务")
    ∷ ("settings.runtime.jobsDescription", plain "清理和健康检查会在 worker 的下一次轮询中读取新配置。时间单位为秒。")
    ∷ ("settings.runtime.pruneGrace", plain "过期后保留时间")
    ∷ ("settings.runtime.healthInterval", plain "检查间隔")
    ∷ ("settings.runtime.autoPrune", plain "自动删除超过保留期的过期链接")
    ∷ ("settings.runtime.healthCheck", plain "启用目标地址健康检查")
    ∷ []
