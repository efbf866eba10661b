-- ===== src/Attribute/Times.antt =====
-- An expired attribute stays expired.
use zl_zpr_visaservice.Base.{ℕ, ◌≤◌, ◌≡◌, true, arith}
use zl_zpr_visaservice.Attribute.{Attribute, is_expired}

pub is_expired_mono :
    (now later : ℕ) (a : Attribute)
    → now ≤ later
    → is_expired now a ≡ true
    → is_expired later a ≡ true
unfolding is_expired
is_expired_mono now later a le h = ground arith
