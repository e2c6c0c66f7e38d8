-- ===== src/Digits/Tests.antt =====
-- Comparisons of digits, with leading zeros and above 2 ^ 53.
use cdx_file_format_spec.Prelude.{◌≡◌, refl}
use cdx_file_format_spec.Merkle.ContentHash.{codes}
use cdx_file_format_spec.Container.Bytes.{negsuc, pos}
use cdx_file_format_spec.Digits.{compare_digits}
use cdx_file_format_spec.Digits.Order.{value_from, IsOrder, compare_digits-IsOrder}

above_doubles : compare_digits (codes "9007199254740992") (codes "9007199254740993") ≡ negsuc 0
unfolding compare_digits
above_doubles = refl

leading_zeros : compare_digits (codes "000") (codes "0") ≡ pos 0
unfolding compare_digits
leading_zeros = refl

compare_digits-IsOrder_example :
    IsOrder
      (compare_digits (codes "007") (codes "10"))
      (value_from 0 (codes "007"))
      (value_from 0 (codes "10"))
compare_digits-IsOrder_example =
    compare_digits-IsOrder b'0' b'1' (codes "07") (codes "0") (refl, (refl, (refl, tt)))
      (refl, (refl, tt))
