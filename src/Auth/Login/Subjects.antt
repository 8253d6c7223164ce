-- ===== src/Auth/Login/Subjects.antt =====
-- One user for each subject.
use mathlib.Core.Path.{subst}
use openeo_argoworkflows.Base.{
  String, Option, none, some, List, [], ◌∷◌, ◌++◌, ◌==◌, ◌≡◌, ◌≢◌, refl, sym, ap, ◌∙◌, inl, inr,
  Option-cases, if◌then◌else◌, string_eq, arith,
}
use openeo_argoworkflows.Base.Text.{Text}
use openeo_argoworkflows.Auth.Login.{User, find_subject, create_user, validate_authorization}

find_subject_sub :
    (sub : String) (users : List User) (u : User)
    → find_subject sub users ≡ some u
    → u.oidc_sub ≡ sub
unfolding find_subject
find_subject_sub sub [] u h = cc
find_subject_sub sub (v ∷ users) u h = ground (arith, find_subject_sub sub users u)

find_subject-append :
    (sub : String) (users : List User) (u : User)
    → find_subject sub (users ++ (u ∷ [])) ≡ elim (find_subject sub users) as (λ o. Option User) [
      | some v ↦ some v
      | none ↦ if sub == u.oidc_sub then some u else none
    ]
unfolding find_subject
find_subject-append sub [] u = refl
find_subject-append sub (v ∷ users) u = ground (arith, find_subject-append sub users u)

-- Whoever shows a valid token is found in the table afterwards, and every later login of the same
-- subject, by whatever token, is the same user and changes nothing.
pub record IsKnown (validate_token : String → Option String) (authorization : String)
    (users : List User) (u : User) (users' : List User) : Type 0 where
  pub subject : validate_token authorization ≡ some u.oidc_sub
  pub found : find_subject u.oidc_sub users' ≡ some u
  pub again :
      (later : String) (fresh : Text)
      → validate_token later ≡ some u.oidc_sub
      → validate_authorization validate_token later fresh users' ≡ some (u, users')
  pub others :
      (sub : String) → ◌≢◌ sub u.oidc_sub → find_subject sub users' ≡ find_subject sub users

login_refused :
    (validate_token : String → Option String) (authorization : String) (fresh : Text)
    (users : List User)
    → validate_token authorization ≡ none
    → validate_authorization validate_token authorization fresh users ≡ none
unfolding validate_authorization
login_refused validate_token authorization fresh users e = ground (arith, e)

none_not_some : {A : Type 0} {a : A} → ¬ (none ≡ some a)
none_not_some e = cc

IsKnown-pair :
    (validate_token : String → Option String) (authorization : String) (users : List User)
    (p q : User × List User)
    → some p ≡ some q
    → IsKnown validate_token authorization users (p.0) (p.1)
    → IsKnown validate_token authorization users (q.0) (q.1)
IsKnown-pair validate_token authorization users p q e k =
    let e' : p ≡ q = cc in
    subst (λ (x : User × List User). IsKnown validate_token authorization users (x.0) (x.1)) e' k

module _ (validate_token : String → Option String) (authorization : String) (sub : String)
    (e : validate_token authorization ≡ some sub) where
  login_found :
      (fresh : Text) (users : List User) (v : User)
      → find_subject sub users ≡ some v
      → validate_authorization validate_token authorization fresh users ≡ some (v, users)
  unfolding validate_authorization
  login_found fresh users v f = ground (arith, e, f)

  login_new :
      (fresh : Text) (users : List User)
      → find_subject sub users ≡ none
      → validate_authorization validate_token authorization fresh users
        ≡ some (
          record { user_id = fresh; oidc_sub = sub },
          users ++ (record { user_id = fresh; oidc_sub = sub } ∷ []),
        )
  unfolding validate_authorization create_user
  login_new fresh users f = ground (arith, e, f)

module _ (validate_token : String → Option String) (authorization : String) (sub : String)
    (e : validate_token authorization ≡ some sub) where
  found-IsKnown :
      (users : List User) (v : User)
      → find_subject sub users ≡ some v
      → IsKnown validate_token authorization users v users
  found-IsKnown users v f = record {
    subject = ground (arith, e, find_subject_sub sub users v f);
    found = ground (arith, f, find_subject_sub sub users v f);
    again = λ later fresh valid.
        login_found validate_token later sub (valid ∙ ap some (find_subject_sub sub users v f))
          fresh users v f;
    others = λ s n. refl;
  }

  new-IsKnown :
      (fresh : Text) (users : List User)
      → find_subject sub users ≡ none
      → IsKnown validate_token authorization users
          (record { user_id = fresh; oidc_sub = sub })
          (users ++ (record { user_id = fresh; oidc_sub = sub } ∷ []))
  new-IsKnown fresh users f =
      let u : User = record { user_id = fresh; oidc_sub = sub } in
      let here : find_subject sub (users ++ (u ∷ [])) ≡ some u =
        ground (arith, f, find_subject-append sub users u) in
      record {
        subject = e;
        found = here;
        again = λ later other valid. login_found validate_token later sub valid other _ u here;
        others = λ s n. ground (arith, n, find_subject-append s users u);
      }

-- A login finds the user of the token's subject, or makes one. A login that follows, by any token of
-- that subject, is this user and leaves the table as it is; the users of the other subjects are as
-- before.
pub validate_authorization-IsKnown :
    (validate_token : String → Option String) (authorization : String) (fresh : Text)
    (users : List User) (u : User) (users' : List User)
    → validate_authorization validate_token authorization fresh users ≡ some (u, users')
    → IsKnown validate_token authorization users u users'
validate_authorization-IsKnown validate_token authorization fresh users u users' h =
    elim (Option-cases (validate_token authorization)) [
      | inl invalid ↦
          absurd (
            none_not_some
              (sym (login_refused validate_token authorization fresh users invalid) ∙ h))
      | inr (sub, e) ↦ elim (Option-cases (find_subject sub users)) [
        | inr (v, f) ↦
            IsKnown-pair validate_token authorization users _ (u, users')
              (sym (login_found validate_token authorization sub e fresh users v f) ∙ h)
              (found-IsKnown validate_token authorization sub e users v f)
        | inl new ↦
            IsKnown-pair validate_token authorization users _ (u, users')
              (sym (login_new validate_token authorization sub e fresh users new) ∙ h)
              (new-IsKnown validate_token authorization sub e fresh users new)
      ]
    ]
