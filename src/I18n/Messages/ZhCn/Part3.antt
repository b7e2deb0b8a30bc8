-- ===== src/I18n/Messages/ZhCn/Part3.antt =====
-- web/src/lib/i18n/messages/zh-CN.ts, lines 295 to 434.
use purels.Base.{List, String, [], ◌∷◌}
use purels.I18n.Message.{Message, plain}

unfoldable pub zh_cn_part3 : List (String × Message)
zh_cn_part3 =
    ("common.edit", plain "编辑")
    ∷ ("common.save", plain "保存")
    ∷ ("common.saving", plain "正在保存...")
    ∷ ("common.loading", plain "正在加载...")
    ∷ ("common.previous", plain "上一页")
    ∷ ("common.next", plain "下一页")
    ∷ ("common.page", plain "第 {page} / {count} 页")
    ∷ ("common.range", plain "第 {start}–{end} 条，共 {total} 条")
    ∷ ("common.rangeEmpty", plain "共 0 条")
    ∷ ("common.retry", plain "重试")
    ∷ ("common.actionFailed", plain "操作未完成，请重试。")
    ∷ ("common.unavailable", plain "无法读取")
    ∷ ("dashboard.totalLinks", plain "总链接数")
    ∷ ("dashboard.totalClicks", plain "累计点击")
    ∷ ("dashboard.serviceStatus", plain "服务状态")
    ∷ ("dashboard.statusChecking", plain "正在检查…")
    ∷ ("dashboard.statusReady", plain "服务就绪")
    ∷ ("dashboard.statusDegraded", plain "服务未就绪")
    ∷ ("dashboard.statusUnreachable", plain "无法连接 API")
    ∷ ("dashboard.recentLinks", plain "最近链接")
    ∷ ("dashboard.viewAll", plain "查看全部")
    ∷ ("dashboard.clicks", plain "{count} 次点击")
    ∷ ("dashboard.empty", plain "暂无链接")
    ∷ ("links.title", plain "链接管理")
    ∷ ("links.searchPlaceholder", plain "搜索别名或目标 URL")
    ∷ ("links.allTags", plain "全部标签")
    ∷ ("links.tagOption", plain "{name}（{count}）")
    ∷ ("links.import", plain "导入 CSV")
    ∷ ("links.export", plain "导出 CSV")
    ∷ ("links.create", plain "创建链接")
    ∷ ("links.selectAll", plain "全选本页")
    ∷ ("links.selectOne", plain "选择 {alias}")
    ∷ ("links.checkOk", plain "检查 {code}")
    ∷ ("links.checkFailed", plain "检查 失败")
    ∷ ("links.qr", plain "二维码")
    ∷ ("links.confirmDelete", plain "确认删除该链接？")
    ∷ ("links.confirmBulkDelete", plain "确认删除选中的 {count} 条链接？")
    ∷ ("links.bulkTagPlaceholder", plain "标签")
    ∷ ("links.bulkNeedDate", plain "请选择过期日期")
    ∷ ("links.bulkNeedTag", plain "请输入标签")
    ∷ ("links.bulkSkipped", plain "{count} 条未处理")
    ∷ ("links.selected", plain "已选 {count} 条")
    ∷ ("links.run", plain "执行")
    ∷ ("links.clearSelection", plain "取消选择")
    ∷ ("links.searchLabel", plain "搜索链接")
    ∷ ("links.tagFilterLabel", plain "按标签筛选")
    ∷ ("links.sortLabel", plain "链接排序")
    ∷ ("links.bulkActionLabel", plain "批量操作")
    ∷ ("links.bulkDateLabel", plain "过期日期")
    ∷ ("links.emptyFiltered", plain "没有匹配的链接。")
    ∷ ("links.empty", plain "暂无链接，先创建一个吧。")
    ∷ ("links.imported", plain "导入成功 {count} 条")
    ∷ ("links.deleted", plain "链接已删除")
    ∷ ("links.bulkComplete", plain "已更新 {count} 条链接")
    ∷ ("links.exported", plain "CSV 已开始导出")
    ∷ ("links.importFailed", plain "失败 {count} 条")
    ∷ ("links.importErrorLine", plain "第 {line} 行：{reason}")
    ∷ ("links.importErrorLineAlias", plain "第 {line} 行（{alias}）：{reason}")
    ∷ ("links.copy", plain "复制")
    ∷ ("links.copied", plain "已复制")
    ∷ ("links.copyFailed", plain "复制失败，请手动选择")
    ∷ ("links.created.title", plain "短链已生成")
    ∷ ("links.created.body", plain "点击下方地址即可复制完整短链。")
    ∷ ("links.created.preview", plain "预览跳转页")
    ∷ ("links.created.edit", plain "编辑链接")
    ∷ ("links.created.new", plain "再创建一条")
    ∷ ("links.table.short", plain "短链接")
    ∷ ("links.table.destination", plain "目标地址")
    ∷ ("links.table.tags", plain "标签")
    ∷ ("links.table.clicks", plain "点击")
    ∷ ("links.table.redirect", plain "跳转")
    ∷ ("links.table.status", plain "状态")
    ∷ ("links.table.actions", plain "操作")
    ∷ ("links.form.destination", plain "目标 URL")
    ∷ ("links.form.alias", plain "自定义别名（可选）")
    ∷ ("links.form.aliasPlaceholder", plain "留空自动生成")
    ∷ ("links.form.domain", plain "短域名")
    ∷ ("links.form.title", plain "标题（可选）")
    ∷ ("links.form.tags", plain "标签（可选）")
    ∷ ("links.form.tagsPlaceholder", plain "多个标签用逗号分隔")
    ∷ ("links.form.redirectCode", plain "跳转状态码")
    ∷ ("links.form.interstitial", plain "先显示要跳转的地址")
    ∷ ("links.form.interstitialUnit", plain "秒后跳转")
    ∷ ("links.form.submit", plain "创建链接")
    ∷ ("links.form.submitting", plain "创建中...")
    ∷ ("links.form.save", plain "保存修改")
    ∷ ("links.form.saving", plain "保存中...")
    ∷ ("links.redirect.follow", plain "跟随链接")
    ∷ ("links.redirect.temporary", plain "302 临时跳转")
    ∷ ("links.redirect.permanent", plain "301 永久跳转")
    ∷ ("links.edit.title", plain "编辑链接")
    ∷ ("links.edit.breadcrumbTail", plain "编辑")
    ∷ ("links.edit.preview", plain "预览")
    ∷ ("links.edit.status", plain "状态")
    ∷ ("links.edit.statusActive", plain "启用")
    ∷ ("links.edit.statusDisabled", plain "停用")
    ∷ ("links.edit.expires", plain "过期日期（留空为永久）")
    ∷ ("links.edit.notFound", plain "未找到该链接。")
    ∷ ("links.edit.loading", plain "加载中…")
    ∷ ("links.edit.checkNow", plain "立即检查")
    ∷ ("links.edit.checking", plain "检查中...")
    ∷ ("links.edit.neverChecked", plain "尚未检查")
    ∷ ("links.edit.lastChecked", plain "上次检查 {time}")
    ∷ ("links.edit.checkUnreachable", plain "无法连接")
    ∷ ("bulk.disable", plain "停用")
    ∷ ("bulk.enable", plain "启用")
    ∷ ("bulk.delete", plain "删除")
    ∷ ("bulk.tag", plain "打标签")
    ∷ ("bulk.untag", plain "去标签")
    ∷ ("bulk.setExpiry", plain "设置过期")
    ∷ ("sort.createdAtDesc", plain "最新创建")
    ∷ ("sort.createdAtAsc", plain "最早创建")
    ∷ ("sort.clicksDesc", plain "点击最多")
    ∷ ("sort.clicksAsc", plain "点击最少")
    ∷ ("sort.aliasAsc", plain "别名 A → Z")
    ∷ ("sort.aliasDesc", plain "别名 Z → A")
    ∷ ("statusFilter.all", plain "全部状态")
    ∷ ("statusFilter.active", plain "启用中")
    ∷ ("statusFilter.disabled", plain "已停用")
    ∷ ("statusFilter.expired", plain "已过期")
    ∷ ("rules.title", plain "分流规则")
    ∷ ("rules.add", plain "添加规则")
    ∷ ("rules.none", plain "无")
    ∷ ("rules.matchType", plain "匹配方式")
    ∷ ("rules.matchValue", plain "匹配值")
    ∷ ("rules.matchUa", plain "UA 包含")
    ∷ ("rules.matchDevice", plain "设备类型")
    ∷ ("deviceRule.mobile", plain "手机")
    ∷ ("deviceRule.tablet", plain "平板")
    ∷ ("deviceRule.desktop", plain "桌面")
    ∷ []
