-- ===== src/Executor/Raster/Nodata.antt =====
-- The value for cells without data, for the type of the cells.
use openeo_argoworkflows.Base.{
  Bool, true, false, not, ◌&&◌, Option, none, some, ◌≡◌, sym, ap, inr, ◌==◌, nat_eq, arith,
}
use openeo_argoworkflows.Base.Text.{Text, text_eq}
use openeo_argoworkflows.Executor.Raster.{
  Value, whole, real, not_finite, word, is_integer_type, to_integer, match_nodata,
}
use openeo_argoworkflows.Executor.Load.Steps.{inr_injective}

abbrev pub is_float : Option Value → Bool
is_float none = false
is_float (some (whole negative n)) = false
is_float (some (real negative n digits)) = true
is_float (some not_finite) = true
is_float (some (word t)) = false

pub match_nodata-whole :
    (t : Option Text) (v w : Option Value)
    → match_nodata t v ≡ inr w
    → is_integer_type t ≡ true
    → is_float w ≡ false
unfolding match_nodata to_integer
match_nodata-whole t none w h e = ap is_float (sym (inr_injective h))
match_nodata-whole t (some (whole g n)) w h e =
    ap is_float (sym (inr_injective {a = some (whole g n)} (ground (arith, e, h))))
match_nodata-whole t (some (real g n d)) w h e =
    ap is_float
      (sym (inr_injective {a = some (whole (g && not (n == 0)) n)} (ground (arith, e, h))))
match_nodata-whole t (some not_finite) w h e = ground (arith, e, h)
match_nodata-whole t (some (word x)) w h e =
    ap is_float (sym (inr_injective {a = some (word x)} (ground (arith, e, h))))

pub match_nodata-kept :
    (t : Option Text) (v w : Option Value)
    → match_nodata t v ≡ inr w
    → is_integer_type t ≡ false
    → w ≡ v
unfolding match_nodata
match_nodata-kept t none w h e = sym (inr_injective h)
match_nodata-kept t (some x) w h e = sym (inr_injective (ground (arith, e, h)))
