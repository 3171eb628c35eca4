-- ===== src/Store/Tests.antt =====
-- The theorems on texts at concrete values.
use icloud_api_mangobubu.Base.{◌≤◌, ◌≡◌, false, length, codes}
use icloud_api_mangobubu.Store.Encoding.{truncate, has_nul, truncate-truncate}

truncate-truncate_example :
    (length (truncate (codes "coded") 3) ≤ 3)
    × (has_nul (truncate (codes "coded") 3) ≡ false)
    × (truncate (truncate (codes "coded") 3) 3 ≡ truncate (codes "coded") 3)
truncate-truncate_example = truncate-truncate (codes "coded") 3
