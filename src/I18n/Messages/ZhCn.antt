-- ===== src/I18n/Messages/ZhCn.antt =====
-- web/src/lib/i18n/messages/zh-CN.ts, in the order of the source.
mod Part1
mod Part2
mod Part3
mod Part4
mod Part5
mod Part6
use Part1.{zh_cn_part1}
use Part2.{zh_cn_part2}
use Part3.{zh_cn_part3}
use Part4.{zh_cn_part4}
use Part5.{zh_cn_part5}
use Part6.{zh_cn_part6}
use purels.Base.{List, String, ◌++◌}
use purels.I18n.Message.{Message}

unfoldable pub zh_cn : List (String × Message)
unfolding zh_cn_part1 zh_cn_part2 zh_cn_part3 zh_cn_part4 zh_cn_part5 zh_cn_part6
zh_cn =
    zh_cn_part1 ++ (zh_cn_part2 ++ (zh_cn_part3 ++ (zh_cn_part4 ++ (zh_cn_part5 ++ (zh_cn_part6)))))
