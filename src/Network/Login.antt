-- ===== src/Network/Login.antt =====
-- src/network/server.rs: a line that logs in contains the credentials.
use kssql.Common.{
  ℕ, zero, suc, ◌≡◌, refl, sym, ap, subst, false, length, ◌∙◌, true, Bool-cases, Option-cases, none,
  some, [], ◌∷◌, ◌++◌, append-nil, append_assoc, bytes_eq, bytes_eq_iff, ==_iff, inl, inr, arith,
}
use kssql.Common.Str.{
  Text, is_whitespace, trim_start, keep_end, trim_end, trim, strip_prefix, strip_all,
  trim_start_matches,
}
use kssql.Network.Session.{auth_prefix, credentials, is_login}

-- The first text stands somewhere in the second.
abbrev pub Contains : Text → Text → Type 0
Contains part s = (before : Text) × (after : Text) × (s ≡ before ++ (part ++ after))

Contains-trans : (a b c : Text) → Contains a b → Contains b c → Contains a c
Contains-trans a b c (p, q, e) (r, s, h) = (
  r ++ p,
  q ++ s,
  h
      ∙ ap (λ l. r ++ (l ++ s)) e
      ∙ ap (λ l. r ++ l) (append_assoc p (a ++ q) s ∙ ap (λ l. p ++ l) (append_assoc a q s))
      ∙ sym (append_assoc r p (a ++ (q ++ s))),
)

trim_start_lem : (s : Text) → (a : Text) × (s ≡ a ++ trim_start s)
trim_start_lem [] = ([], refl)
trim_start_lem (c ∷ s) = elim (Bool-cases (is_whitespace c)) [
  | inl white ↦ let (a, e) = trim_start_lem s in (c ∷ a, rw white (ap (λ l. c ∷ l) e))
  | inr black ↦ ([], rw black refl)
]

keep_end_lem : (c : ℕ) (s : Text) → (b : Text) × (c ∷ s ≡ keep_end c s ++ b)
keep_end_lem c [] = elim (Bool-cases (is_whitespace c)) [
  | inl white ↦ (c ∷ [], rw white refl)
  | inr black ↦ ([], rw black refl)
]
keep_end_lem c (d ∷ s) = ([], ap (λ l. c ∷ d ∷ l) (sym (append-nil s)))

trim_end_lem : (s : Text) → (b : Text) × (s ≡ trim_end s ++ b)
trim_end_lem [] = ([], refl)
trim_end_lem (c ∷ s) =
    let (b, e) = trim_end_lem s in
    let (b', e') = keep_end_lem c (trim_end s) in
    (b' ++ b, ap (λ l. c ∷ l) e ∙ ap (λ l. l ++ b) e' ∙ append_assoc (keep_end c (trim_end s)) b' b)

trim-Contains : (s : Text) → Contains (trim s) s
unfolding trim
trim-Contains s =
    let (a, e) = trim_start_lem s in
    let (b, e') = trim_end_lem (trim_start s) in (a, b, e ∙ ap (λ l. a ++ l) e')

strip_prefix_lem : (p s rest : Text) → strip_prefix p s ≡ some rest → s ≡ p ++ rest
strip_prefix_lem [] s rest h = ground (arith, h)
strip_prefix_lem (c ∷ p) [] rest h = absurd (cc h)
strip_prefix_lem (c ∷ p) (d ∷ s) rest h = ground (arith, h, ==_iff c d, strip_prefix_lem p s rest)

strip_all_lem : (fuel : ℕ) (p s : Text) → (a : Text) × (s ≡ a ++ strip_all fuel p s)
strip_all_lem zero p s = ([], refl)
strip_all_lem (suc fuel) p s = elim (Option-cases (strip_prefix p s)) [
  | inl stop ↦ ([], rw (strip_all, stop) refl)
  | inr (rest, more) ↦
      let (a, e) = strip_all_lem fuel p rest in
      (
        p ++ a,
        strip_prefix_lem p s rest more
            ∙ ap (λ l. p ++ l) e
            ∙ sym (append_assoc p a (strip_all fuel p rest))
            ∙ rw (strip_all, more) refl,
      )
]

trim_start_matches-Contains : (p s : Text) → Contains (trim_start_matches p s) s
unfolding trim_start_matches
trim_start_matches-Contains p s =
    let (a, e) = strip_all_lem (length s) p s in
    (a, [], e ∙ ap (λ l. a ++ l) (sym (append-nil (trim_start_matches p s))))

-- A line that logs in contains the credentials.
pub is_login-Contains :
    (user pass text : Text)
    → is_login user pass (trim text) ≡ true
    → Contains (credentials user pass) text
unfolding is_login
is_login-Contains user pass text h = elim (Option-cases (strip_prefix auth_prefix (trim text))) [
  | inl other ↦ absurd (ground (arith, h, other))
  | inr (rest, more) ↦
      let inner = trim_start_matches auth_prefix (trim text) in
      let same : trim inner ≡ credentials user pass =
        (bytes_eq_iff (trim inner) (credentials user pass)).0 (
          ap (λ o. elim o [ none ↦ false | some r ↦ bytes_eq (trim inner) (credentials user pass) ])
            (sym more)
          ∙ h) in
      Contains-trans (credentials user pass) inner text
        (subst (λ c. Contains c inner) same (trim-Contains inner))
        (Contains-trans inner (trim text) text (trim_start_matches-Contains auth_prefix (trim text))
          (trim-Contains text))
]
