-- ===== src/I18n/Messages/ZhCn/Part2.antt =====
-- web/src/lib/i18n/messages/zh-CN.ts, lines 155 to 294.
use purels.Base.{List, String, [], ◌∷◌}
use purels.I18n.Message.{Message, plain}

unfoldable pub zh_cn_part2 : List (String × Message)
zh_cn_part2 =
    ("home.feature.stats.title", plain "点击统计")
    ∷ ("home.feature.stats.body", plain "查看点击次数、来源、设备和访问趋势。")
    ∷ ("home.feature.rules.title", plain "智能跳转")
    ∷ ("home.feature.rules.body", plain "根据设备或 User-Agent，将访客送往不同的目标地址。")
    ∷ ("home.feature.access.title", plain "团队管理")
    ∷ ("home.feature.access.body", plain "管理用户和角色，使用双因素认证或单点登录，并查看操作日志。")
    ∷ ("home.feature.gallery.title", plain "跳转页面")
    ∷ ("home.feature.gallery.body", plain "在跳转前展示目标地址和画作，也可以直接跳转。")
    ∷ ("home.feature.privacy.title", plain "数据与隐私")
    ∷ ("home.feature.privacy.body", plain "数据保存在自己的数据库中，访客 IP 的记录方式由你选择。")
    ∷ ("home.chip.qr", plain "二维码")
    ∷ ("home.chip.csv", plain "CSV 导入导出")
    ∷ ("home.chip.token", plain "API Token（带作用域）")
    ∷ ("home.chip.rateLimit", plain "限流")
    ∷ ("home.chip.domains", plain "多个短域名")
    ∷ ("home.chip.probe", plain "目标地址健康检查")
    ∷ ("home.how.title", plain "工作原理")
    ∷ ("home.how.create.title", plain "创建")
    ∷ ("home.how.create.body", plain "输入目标地址，选择别名或自动生成。")
    ∷ ("home.how.share.title", plain "分享")
    ∷ ("home.how.share.body", plain "分享短链接，或生成二维码。")
    ∷ ("home.how.measure.title", plain "查看统计")
    ∷ ("home.how.measure.body", plain "查看链接的点击次数和访问来源。")
    ∷ ("home.selfHost.title", plain "开源，自行部署")
    ∷ ("home.selfHost.body", plain "使用自己的域名创建短链接，链接和访问数据保存在你的服务器上。")
    ∷ ("home.selfHost.docs", plain "查看安装指南")
    ∷ ("home.faq.title", plain "常见问题")
    ∷ ("home.faq.q1", plain "谁能创建短链？")
    ∷ ("home.faq.a1", plain "拥有账号的用户可以创建短链接。普通用户管理自己的链接，管理员可以查看全部链接。")
    ∷ ("home.faq.q2", plain "可以用我自己的域名吗？")
    ∷ ("home.faq.a2", plain "可以。将域名解析到你的服务，并在 Purels 中配置短域名。")
    ∷ ("home.faq.q3", plain "跳转页上的画册是什么？")
    ∷ ("home.faq.a3", plain "这是可选的跳转页面，展示目标地址和一幅画作。你可以设置停留时间，或关闭页面直接跳转。")
    ∷ ("home.faq.q4", plain "访问数据存在哪里？")
    ∷ ("home.faq.a4", plain "链接和点击记录保存在你配置的 PostgreSQL 数据库中。")
    ∷ ("home.faq.q5", plain "支持两步验证和单点登录吗？")
    ∷ ("home.faq.a5", plain "支持 TOTP 双因素认证和 OIDC 单点登录，启用前需要配置加密密钥。")
    ∷ ("home.faq.q6", plain "关掉注册之后还能用吗？")
    ∷ ("home.faq.a6", plain "可以。关闭注册后，已有账号仍可正常使用。")
    ∷ ("home.faq.q7", plain "用什么许可？")
    ∷ ("home.faq.a7", plain "Apache-2.0。")
    ∷ ("home.cta.title", plain "开始使用 Purels")
    ∷ ("home.cta.body", plain "创建短链接，或在自己的服务器上部署 Purels。")
    ∷ ("home.cta.button", plain "开始使用")
    ∷ ("home.footer.tagline", plain "开源的自托管短链接服务。")
    ∷ ("home.footer.license", plain "Apache-2.0")
    ∷ ("home.footer.copyright", plain "© 2026 Purels")
    ∷ ("nav.overview", plain "概览")
    ∷ ("nav.links", plain "链接管理")
    ∷ ("nav.stats", plain "短链统计")
    ∷ ("nav.audit", plain "操作日志")
    ∷ ("nav.users", plain "用户")
    ∷ ("nav.roles", plain "角色与权限")
    ∷ ("nav.oidc", plain "登录方式")
    ∷ ("nav.analytics", plain "统计与集成")
    ∷ ("nav.security", plain "账号安全")
    ∷ ("nav.captcha", plain "注册保护")
    ∷ ("nav.runtimeSettings", plain "链接与运行规则")
    ∷ ("nav.group.overview", plain "设置总览")
    ∷ ("nav.group.access", plain "用户与权限")
    ∷ ("nav.group.security", plain "安全防护")
    ∷ ("nav.group.links", plain "链接服务")
    ∷ ("nav.group.analytics", plain "数据统计")
    ∷ ("shell.console", plain "管理后台")
    ∷ ("shell.workspace", plain "工作台")
    ∷ ("shell.breadcrumb", plain "页面导航")
    ∷ ("shell.account", plain "Purels 账户")
    ∷ ("shell.accountMenu", plain "账户菜单")
    ∷ ("shell.settings", plain "设置")
    ∷ ("shell.theme", plain "主题")
    ∷ ("shell.welcome", plain "欢迎回来")
    ∷ ("shell.welcomeNamed", plain "欢迎回来，{username}")
    ∷ ("shell.logout", plain "退出登录")
    ∷ ("shell.loggingOut", plain "正在退出...")
    ∷ ("shell.closeMenu", plain "关闭菜单")
    ∷ ("shell.openMenu", plain "打开菜单")
    ∷ ("shell.skipToMain", plain "跳到主内容")
    ∷ ("shell.expandSection", plain "展开设置分组")
    ∷ ("shell.collapseSection", plain "收起设置分组")
    ∷ ("shell.language", plain "语言")
    ∷ ("theme.switch", plain "切换主题")
    ∷ ("theme.light", plain "浅色")
    ∷ ("theme.dark", plain "深色")
    ∷ ("login.subtitle", plain "短链接管理后台")
    ∷ ("login.heading", plain "登录")
    ∷ ("login.mfaHeading", plain "两步验证")
    ∷ ("login.username", plain "用户名")
    ∷ ("login.password", plain "密码")
    ∷ ("login.code", plain "验证码")
    ∷ ("login.submit", plain "登录")
    ∷ ("login.submitting", plain "登录中...")
    ∷ ("login.verify", plain "验证")
    ∷ ("login.verifying", plain "验证中...")
    ∷ ("login.back", plain "返回")
    ∷ ("login.or", plain "或")
    ∷ ("login.noAccount", plain "没有账号？")
    ∷ ("login.register", plain "注册")
    ∷ ("login.failed", plain "登录失败，请稍后重试")
    ∷ ("login.verifyFailed", plain "验证失败，请稍后重试")
    ∷ ("oidcError.oidc_not_provisioned", plain "无法为这个身份找到可用的账号，请联系管理员。")
    ∷ ("oidcError.oidc_state", plain "这次登录已失效，请重新开始。")
    ∷ ("oidcError.oidc_exchange", plain "身份提供方没有完成这次登录，请重试。")
    ∷ ("oidcError.oidc_unavailable", plain "该登录方式当前不可用，请联系管理员。")
    ∷ ("oidcError.oidc_failed", plain "登录失败，请重试。")
    ∷ ("register.heading", plain "注册")
    ∷ ("register.username", plain "用户名")
    ∷ ("register.password", plain "密码")
    ∷ ("register.submit", plain "注册")
    ∷ ("register.submitting", plain "注册中...")
    ∷ ("register.haveAccount", plain "已有账号？")
    ∷ ("register.login", plain "登录")
    ∷ ("register.completeCaptcha", plain "请完成验证")
    ∷ ("register.captchaLoadFailed", plain "无法加载注册验证")
    ∷ ("register.failed", plain "注册失败，请稍后重试")
    ∷ ("turnstile.loadFailed", plain "验证加载失败，请重试")
    ∷ ("role.admin", plain "管理员")
    ∷ ("role.operator", plain "运营")
    ∷ ("role.readonly", plain "只读")
    ∷ ("role.user", plain "用户")
    ∷ ("common.cancel", plain "取消")
    ∷ ("common.close", plain "关闭")
    ∷ ("common.copy", plain "复制")
    ∷ ("common.copied", plain "已复制")
    ∷ ("common.notifications", plain "通知")
    ∷ ("common.delete", plain "删除")
    ∷ []
