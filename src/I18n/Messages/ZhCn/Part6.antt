-- ===== src/I18n/Messages/ZhCn/Part6.antt =====
-- web/src/lib/i18n/messages/zh-CN.ts, lines 715 to 767.
use purels.Base.{List, String, [], ◌∷◌}
use purels.I18n.Message.{Message, plain}

unfoldable pub zh_cn_part6 : List (String × Message)
zh_cn_part6 =
    ("settings.runtime.rateTitle", plain "访问限流")
    ∷ ("settings.runtime.rateDescription", plain "每个客户端 IP 每分钟允许的请求数；填 0 表示该路由不限流。")
    ∷ ("settings.runtime.rateEnabled", plain "启用限流")
    ∷ ("settings.runtime.rateLogin", plain "登录")
    ∷ ("settings.runtime.rateRegister", plain "注册")
    ∷ ("settings.runtime.rate2fa", plain "两步验证")
    ∷ ("settings.runtime.rateOidc", plain "OIDC")
    ∷ ("settings.runtime.rateApi", plain "API")
    ∷ ("settings.runtime.rateRedirect", plain "短链跳转")
    ∷ ("settings.runtime.revision", plain "配置版本 {revision}")
    ∷ ("settings.runtime.noPermission", plain "没有权限管理链接与运行规则。")
    ∷ ("error.network", plain "无法连接到 API 服务，请检查后端地址。")
    ∷ ("error.session_expired", plain "登录已过期，请重新登录。")
    ∷ ("error.http_error", plain "请求失败（{status}）")
    ∷ ("error.invalid_request", plain "请求无法读取。")
    ∷ ("error.unauthorized", plain "未登录或登录已过期。")
    ∷ ("error.insufficient_scope", plain "没有权限执行该操作。")
    ∷ ("error.csrf_required", plain "安全令牌缺失，请刷新页面。")
    ∷ ("error.csrf_invalid", plain "安全令牌无效，请刷新页面。")
    ∷ ("error.csrf_unavailable", plain "无法获取安全令牌，请刷新页面。")
    ∷ ("error.not_found", plain "该记录不存在或已被删除。")
    ∷ ("error.conflict", plain "该记录已存在。")
    ∷ ("error.rate_limited", plain "操作过于频繁，请稍后再试。")
    ∷ ("error.internal_error", plain "出错了，请重试。")
    ∷ ("error.database_unavailable", plain "数据库暂时不可用。")
    ∷ ("error.registration_disabled", plain "该部署未开放注册。")
    ∷ ("error.invalid_credentials", plain "用户名或密码不正确。")
    ∷ ("error.invalid_second_factor", plain "验证码不正确或已过期。")
    ∷ ("error.two_factor_unavailable", plain "该部署未启用两步验证。")
    ∷ ("error.no_enrolment", plain "没有进行中的绑定。")
    ∷ ("error.quota_exceeded", plain "已达到链接数量上限。")
    ∷ ("error.last_capability_holder", plain "至少需要保留一个拥有该权限的启用账号。")
    ∷ ("error.secrets_unavailable", plain "该部署无法保存加密密钥，请设置 SECRET_ENCRYPTION_KEY。")
    ∷ ("error.oidc_slug_immutable", plain "标识创建后不可修改，请新增一个登录方式。")
    ∷ ("error.captcha_unavailable", plain "注册保护暂时不可用。")
    ∷ ("error.captcha_invalid", plain "验证未通过，请重试。")
    ∷ ("error.captcha_invalid_settings", plain "注册保护配置无效。")
    ∷ ("error.captcha_secrets_unavailable", plain "该部署无法保存加密密钥，请设置 SECRET_ENCRYPTION_KEY。")
    ∷ ("error.analytics_invalid", plain "埋点配置无效。")
    ∷ ("error.load", plain "加载失败")
    ∷ ("error.save", plain "保存失败")
    ∷ ("error.create", plain "创建失败")
    ∷ ("error.update", plain "更新失败")
    ∷ ("error.delete", plain "删除失败")
    ∷ ("error.revoke", plain "撤销失败")
    ∷ ("error.reset", plain "重置失败")
    ∷ ("error.operation", plain "操作失败")
    ∷ ("error.bulk", plain "批量操作失败")
    ∷ ("error.export", plain "导出失败")
    ∷ ("error.import", plain "导入失败")
    ∷ ("error.check", plain "检测失败")
    ∷ []
