-- ===== src/Auth/Signed/Query.antt =====
-- The query of a signed URL: how it is read, and what it lacks.
use openeo_argoworkflows.Base.{
  ℕ, true, false, ◌&&◌, Option, none, some, List, [], ◌∷◌, ◌++◌, ◌≡◌, refl, ap, ◌∙◌, nat_eq, arith,
}
use openeo_argoworkflows.Base.Dict
use openeo_argoworkflows.Base.Dict.{Dict}
use openeo_argoworkflows.Base.Decimal.{int_from, decimal, is_digit, int_from-decimal, lacks-decimal}
use openeo_argoworkflows.Base.Lists.{drop}
use openeo_argoworkflows.Base.Split.{
  lacks, lacks-append, before, cut-append, split, split_one, split-append,
}
use openeo_argoworkflows.Base.Text.{Text, codes, text_eq}
use openeo_argoworkflows.Auth.Signed.{
  Keys, first, second, query_items, query_to_dict, read_int, signed_query,
}

-- A value that a query can hold: none of the four marks of a query.
pub record IsPlain (s : Text) : Type 0 where
  pub no_and : lacks b'&' s ≡ true
  pub no_equals : lacks b'=' s ≡ true
  pub no_query : lacks b'?' s ≡ true
  pub no_hash : lacks b'#' s ≡ true

pub decimal-IsPlain : (n : ℕ) → IsPlain (decimal n)
unfolding is_digit
decimal-IsPlain n = record {
  no_and = lacks-decimal b'&' n (ground arith);
  no_equals = lacks-decimal b'=' n (ground arith);
  no_query = lacks-decimal b'?' n (ground arith);
  no_hash = lacks-decimal b'#' n (ground arith);
}

-- The query of a signed URL.
abbrev pub signed_part : ℕ → Text → Text → Text → Text
signed_part t key_name user_id signature =
    codes "Expires="
    ++ (decimal t
        ++ (codes "&KeyName="
            ++ (key_name ++ (codes "&UserId=" ++ (user_id ++ (codes "&Signature=" ++ signature))))))

-- One parameter.
abbrev item : Text → Text → Text
item name value = name ++ (b'=' ∷ value)

split_signed :
    (t : ℕ) (k u s : Text)
    → lacks b'&' k ≡ true
    → lacks b'&' u ≡ true
    → lacks b'&' s ≡ true
    → split b'&' (signed_part t k u s) ≡ (
        item (codes "Expires") (decimal t)
        ∷ item (codes "KeyName") k
        ∷ item (codes "UserId") u
        ∷ item (codes "Signature") s
        ∷ [])
unfolding lacks is_digit nat_eq
split_signed t k u s hk hu hs =
    split-append b'&' (item (codes "Expires") (decimal t)) _ (lacks-decimal b'&' t refl)
    ∙ ap (λ r. item (codes "Expires") (decimal t) ∷ r)
        (split-append b'&' (item (codes "KeyName") k) _ hk
          ∙ ap (λ r. item (codes "KeyName") k ∷ r)
              (split-append b'&' (item (codes "UserId") u) _ hu
                ∙ ap (λ r. item (codes "UserId") u ∷ r)
                    (split_one b'&' (item (codes "Signature") s) hs)))

first-item :
    (name value : Text) → lacks b'=' name ≡ true → first (split b'=' (item name value)) ≡ name
unfolding first
first-item name value h = ap first (split-append b'=' name value h)

second_tail : (a c : Text) (s : Text) → second (a ∷ split b'=' s) ≡ some (first (split b'=' s))
unfolding split second first
second_tail a c [] = refl
second_tail a c (d ∷ s) = ground (arith, second_tail a c s)

second-item :
    (name value : Text)
    → lacks b'=' name ≡ true
    → second (split b'=' (item name value)) ≡ some (first (split b'=' value))
second-item name value h = ap second (split-append b'=' name value h) ∙ second_tail name name value

first_plain : (s : Text) → lacks b'=' s ≡ true → first (split b'=' s) ≡ s
unfolding first
first_plain s h = ap first (split_one b'=' s h)

query_items-item :
    (name value v : Text) (rest : List Text) (d : Dict Text Text)
    → lacks b'=' name ≡ true
    → first (split b'=' value) ≡ v
    → query_items (item name value ∷ rest) d ≡ query_items rest (Dict.set name v d)
unfolding query_items
query_items-item name value v rest d h e =
    ground (arith, first-item name value h, second-item name value h, e)

-- The dictionary of a signed query, with the values `a` to `s`.
abbrev pub values : Text → Text → Text → Text → Dict Text Text
values a k u s =
    (codes "Expires", a) ∷ (codes "KeyName", k) ∷ (codes "UserId", u) ∷ (codes "Signature", s) ∷ []

query_items-values :
    (w x y z a k u s : Text)
    → first (split b'=' w) ≡ a
    → first (split b'=' x) ≡ k
    → first (split b'=' y) ≡ u
    → first (split b'=' z) ≡ s
    → query_items
        (item (codes "Expires") w
          ∷ item (codes "KeyName") x
          ∷ item (codes "UserId") y
          ∷ item (codes "Signature") z
          ∷ [])
        []
      ≡ some (values a k u s)
unfolding query_items lacks nat_eq Dict.set text_eq
query_items-values w x y z a k u s ha hk hu hs =
    let l4 = item (codes "Signature") z ∷ [] in
    let l3 = item (codes "UserId") y ∷ l4 in
    let l2 = item (codes "KeyName") x ∷ l3 in
    let d1 : Dict Text Text = (codes "Expires", a) ∷ [] in
    let d2 = Dict.set (codes "KeyName") k d1 in
    let d3 = Dict.set (codes "UserId") u d2 in
    query_items-item (codes "Expires") w a l2 [] refl ha
    ∙ query_items-item (codes "KeyName") x k l3 d1 refl hk
    ∙ query_items-item (codes "UserId") y u l4 d2 refl hu
    ∙ query_items-item (codes "Signature") z s [] d3 refl hs

module _ (t : ℕ) (k u s : Text) (kp : IsPlain k) (up : IsPlain u) (sa : lacks b'&' s ≡ true) where
  pub query_to_dict-signed_part :
      query_to_dict (signed_part t k u s) ≡ some (values (decimal t) k u (first (split b'=' s)))
  unfolding query_to_dict
  query_to_dict-signed_part =
      ap (λ ps. query_items ps []) (split_signed t k u s kp.no_and up.no_and sa)
      ∙ query_items-values (decimal t) k u s _ _ _ _
          (first_plain (decimal t) (decimal-IsPlain t).no_equals) (first_plain k kp.no_equals)
          (first_plain u up.no_equals) refl

  pub lacks-signed_part :
      (c : ℕ)
      → lacks c (codes "Expires=")
          && (lacks c (codes "&KeyName=")
              && (lacks c (codes "&UserId=") && lacks c (codes "&Signature=")))
        ≡ true
      → is_digit c ≡ false
      → lacks c k ≡ true
      → lacks c u ≡ true
      → lacks c s ≡ true
      → lacks c (signed_part t k u s) ≡ true
  lacks-signed_part c marks e a b d = ground (
    arith,
    lacks-append c (codes "Expires=") (
        decimal t
        ++ (codes "&KeyName=" ++ (k ++ (codes "&UserId=" ++ (u ++ (codes "&Signature=" ++ s)))))),
    lacks-append c (decimal t)
        (codes "&KeyName=" ++ (k ++ (codes "&UserId=" ++ (u ++ (codes "&Signature=" ++ s))))),
    lacks-append c (codes "&KeyName=")
        (k ++ (codes "&UserId=" ++ (u ++ (codes "&Signature=" ++ s)))),
    lacks-append c k (codes "&UserId=" ++ (u ++ (codes "&Signature=" ++ s))),
    lacks-append c (codes "&UserId=") (u ++ (codes "&Signature=" ++ s)),
    lacks-append c u (codes "&Signature=" ++ s),
    lacks-append c (codes "&Signature=") s,
    lacks-decimal c t e,
  )

module _ {User : Type 0} (keys : Keys User) where
  pub signed_query-values :
      (t date : ℕ) (k u user s : Text)
      → keys.fromtimestamp t ≡ some date
      → keys.uuid u ≡ some user
      → signed_query keys (values (decimal t) k u s)
        ≡ some (record { expires = date; key_name = k; user_id = user; signature = s })
  unfolding signed_query Dict.get text_eq nat_eq read_int
  signed_query-values t date k u user s d e = ground (arith, d, e, int_from-decimal t)

-- The moment that a signed query names.
pub expires_of : Text → Option ℕ
expires_of q = int_from 0 false (drop 8 (before b'&' q))

pub expires_of-signed_part : (t : ℕ) (k u s : Text) → expires_of (signed_part t k u s) ≡ some t
unfolding expires_of lacks is_digit nat_eq
expires_of-signed_part t k u s =
    ap
      (λ o.
        int_from 0 false
          (drop 8 (elim o as (λ x. Text) [ none ↦ signed_part t k u s | some (a, b) ↦ a ])))
      (cut-append b'&' (item (codes "Expires") (decimal t)) _ (lacks-decimal b'&' t refl))
    ∙ int_from-decimal t
