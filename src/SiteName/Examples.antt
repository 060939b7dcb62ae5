-- ===== src/SiteName/Examples.antt =====
-- The theorem about site names at a concrete domain.
use wp_panel_en_private.Base.{ℕ, ◌≤◌, ◌≡◌, refl, true, length, all, replicate}
use wp_panel_en_private.Base.Text.{Text, codes}
use wp_panel_en_private.SiteName.{
  max_site_name_len, is_name_char, build_site_name, build_site_name_safe,
}

-- A stand-in for the letters beyond ASCII, and for the digest.
abbrev same : ℕ → ℕ
same c = c

abbrev forty : Text → Text
forty s = replicate 40 b'a'

shop_name :
    build_site_name same forty (codes " Shop-1.example.COM. ") ≡ codes "shop_1_example_com_aaaaaaaa"
unfolding build_site_name
shop_name = refl

build_site_name_safe_example :
    let name = build_site_name same forty (codes "a-very-long-domain.example.org") in
    (length name ≤ max_site_name_len) × (all is_name_char name ≡ true)
build_site_name_safe_example =
    build_site_name_safe same forty (codes "a-very-long-domain.example.org") (λ s. refl) (λ s. refl)
