-- ===== src/Version/Examples.antt =====
-- Versions compared.
use wp_panel_en_private.Base.{◌≡◌, ◌≢◌, refl}
use wp_panel_en_private.Base.Text.{codes, split, is_space}
use wp_panel_en_private.Base.Int.{pos, negsuc, magnitude, digits_value}
use wp_panel_en_private.Version.{
  compare_versions, compare_pre_release, compare_parts, compare_part, split_alpha_num, scan_number,
  is_numeric,
}
use wp_panel_en_private.Version.Order.{compare_versions_trans}

newer : compare_versions (codes "v1.2.10") (codes "1.2.9-beta2") ≡ pos 1
unfolding compare_versions scan_number is_space magnitude digits_value split
newer = refl

beta10 : compare_versions (codes "1.0.0-beta2") (codes "1.0.0-beta10") ≡ negsuc 0
unfolding compare_versions compare_pre_release compare_parts compare_part split_alpha_num
    scan_number is_numeric is_space magnitude digits_value split
beta10 = refl

older : compare_versions (codes "1.2.9") (codes "1.2.10") ≢ pos 1
unfolding compare_versions scan_number is_space magnitude digits_value split
older e = cc e

older_next : compare_versions (codes "1.2.10") (codes "1.3.0-rc1") ≢ pos 1
unfolding compare_versions scan_number is_space magnitude digits_value split
older_next e = cc e

compare_versions_trans_example : compare_versions (codes "1.2.9") (codes "1.3.0-rc1") ≢ pos 1
compare_versions_trans_example =
    compare_versions_trans (codes "1.2.9") (codes "1.2.10") (codes "1.3.0-rc1") older older_next
