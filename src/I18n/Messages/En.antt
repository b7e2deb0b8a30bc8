-- ===== src/I18n/Messages/En.antt =====
-- web/src/lib/i18n/messages/en.ts, in the order of the source.
mod Part1
mod Part2
mod Part3
mod Part4
mod Part5
mod Part6
use Part1.{en_part1}
use Part2.{en_part2}
use Part3.{en_part3}
use Part4.{en_part4}
use Part5.{en_part5}
use Part6.{en_part6}
use purels.Base.{List, String, ◌++◌}
use purels.I18n.Message.{Message}

unfoldable pub en : List (String × Message)
unfolding en_part1 en_part2 en_part3 en_part4 en_part5 en_part6
en = en_part1 ++ (en_part2 ++ (en_part3 ++ (en_part4 ++ (en_part5 ++ (en_part6)))))
