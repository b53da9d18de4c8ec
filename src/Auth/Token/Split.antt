-- ===== src/Auth/Token/Split.antt =====
-- Taking a token apart at its dots.
use kd.Base.{
  ℕ, zero, suc, ◌+◌, ◌-◌, ◌≡◌, ◌≢◌, refl, ap, [], ◌∷◌, ◌++◌, Option, none, some, Text, arith, take,
  drop, length, take-append, All, Option-cases, inl, inr, subst, sym,
}
use kd.Base.{find_char}
use kd.Auth.Token.{shift, Parts, split_parts, split_second, split_third, split_token}

abbrev pub Lacks : ℕ → Text → Type 0
Lacks ch = All (λ c. c ≢ ch)

-- What the result of `find` says.
find_char-none : (ch : ℕ) (s : Text) → find_char ch s ≡ none → Lacks ch s
unfolding find_char
find_char-none ch [] h = tt
find_char-none ch (c ∷ s) h = elim (Option-cases (find_char ch s)) [
  | inl e ↦ (ground arith, find_char-none ch s e)
  | inr (i, e) ↦ absurd (ground arith)
]

find_char-some :
    (ch : ℕ) (s : Text) (i : ℕ)
    → find_char ch s ≡ some i
    → Lacks ch (take i s) × (s ≡ take i s ++ ch ∷ drop (suc i) s)
unfolding find_char
find_char-some ch [] i h = cc
find_char-some ch (c ∷ s) zero h = (tt, ground (arith, find_char-some ch s))
find_char-some ch (c ∷ s) (suc i) h = elim (Option-cases (find_char ch s)) [
  | inl e ↦ absurd (ground arith)
  | inr (j, e) ↦
      let (lacks, whole) = find_char-some ch s i (ground arith) in
      ((ground arith, lacks), ap (◌∷◌ c) whole)
]

find_char-Lacks : (ch : ℕ) (s : Text) → Lacks ch s → find_char ch s ≡ none
unfolding find_char
find_char-Lacks ch [] h = refl
find_char-Lacks ch (c ∷ s) (n, h) = ground (arith, find_char-Lacks ch s h)

pub find_char-append :
    (ch : ℕ) (s t : Text) → Lacks ch s → find_char ch (s ++ ch ∷ t) ≡ some (length s)
unfolding find_char
find_char-append ch [] t h = ground arith
find_char-append ch (c ∷ s) t (n, h) = ground (arith, find_char-append ch s t h)

drop-append_add : (a t : Text) (n : ℕ) → drop (length a + n) (a ++ t) ≡ drop n t
drop-append_add [] t n = let e : 0 + n ≡ n = omega arith in rw e
drop-append_add (c ∷ a) t n =
    let e : suc (length a) + n ≡ suc (length a + n) = omega arith in rw e (drop-append_add a t n)

take-append_add : (a t : Text) (n : ℕ) → take (length a + n) (a ++ t) ≡ a ++ take n t
take-append_add [] t n = let e : 0 + n ≡ n = omega arith in rw e
take-append_add (c ∷ a) t n =
    let e : suc (length a) + n ≡ suc (length a + n) = omega arith in
    rw e (ap (◌∷◌ c) (take-append_add a t n))

-- The rest of the split, behind the first dot.
abbrev rest_parts : Text → Text → ℕ → Option ℕ → Option Parts
rest_parts a t j (some k) = none
rest_parts a t j none = some (record {
  header = a;
  payload = take j t;
  signature = drop (suc j) t;
  signing_input = a ++ b'.' ∷ take j t;
})

abbrev split_rest : Text → Text → Option ℕ → Option Parts
split_rest a t none = none
split_rest a t (some j) = rest_parts a t j (find_char b'.' (drop (suc j) t))

split_parts_lem :
    (a t : Text) (j : ℕ) (found : Option ℕ)
    → split_parts (a ++ b'.' ∷ t) (length a) (length a + 1 + j) (shift (length a + 1 + j + 1) found)
      ≡ rest_parts a t j found
split_parts_lem a t j (some k) = refl
split_parts_lem a t j none =
    let e : length a + 1 + j ≡ length a + suc j = omega arith in
    let e' : length a + suc j + 1 ≡ length a + suc (suc j) = omega arith in
    let d : length a + suc j - length a - 1 ≡ j = omega arith in
    rw (
      e,
      e',
      d,
      take-append a (b'.' ∷ t),
      drop-append_add a (b'.' ∷ t) 1,
      drop-append_add a (b'.' ∷ t) (suc (suc j)),
      take-append_add a (b'.' ∷ t) (suc j),
    )

split_third_lem :
    (a t : Text) (found : Option ℕ)
    → split_third (a ++ b'.' ∷ t) (length a) (shift (length a + 1) found) ≡ split_rest a t found
split_third_lem a t none = refl
split_third_lem a t (some j) =
    let e : length a + 1 + j + 1 ≡ length a + suc (suc j) = omega arith in
    let d : drop (length a + 1 + j + 1) (a ++ b'.' ∷ t) ≡ drop (suc j) t =
      rw e (drop-append_add a (b'.' ∷ t) (suc (suc j))) in
    rw d (split_parts_lem a t j (find_char b'.' (drop (suc j) t)))

split_token-append :
    (a t : Text) → Lacks b'.' a → split_token (a ++ b'.' ∷ t) ≡ split_rest a t (find_char b'.' t)
unfolding split_token
split_token-append a t h =
    rw (find_char-append b'.' a t h, drop-append_add a (b'.' ∷ t) 1)
      (split_third_lem a t (find_char b'.' t))

-- A token with its three parts.
pub record IsSplit (s : Text) (p : Parts) : Type 0 where
  pub whole : s ≡ p.header ++ b'.' ∷ (p.payload ++ b'.' ∷ p.signature)
  pub input : p.signing_input ≡ p.header ++ b'.' ∷ p.payload
  pub header_plain : Lacks b'.' p.header
  pub payload_plain : Lacks b'.' p.payload
  pub signature_plain : Lacks b'.' p.signature

rest_parts_sound :
    (a t : Text) (j : ℕ) (found : Option ℕ) (p : Parts)
    → Lacks b'.' a
    → find_char b'.' t ≡ some j
    → find_char b'.' (drop (suc j) t) ≡ found
    → rest_parts a t j found ≡ some p
    → IsSplit (a ++ b'.' ∷ t) p
rest_parts_sound a t j (some k) p h f g e = absurd (ground arith)
rest_parts_sound a t j none p h f g e =
    let (plain, whole) = find_char-some b'.' t j f in
    let h1 : p.header ≡ a = cc e in
    let h2 : p.payload ≡ take j t = cc e in
    let h3 : p.signature ≡ drop (suc j) t = cc e in
    let h4 : p.signing_input ≡ a ++ b'.' ∷ take j t = cc e in
    record {
      whole = rw (h1, h2, h3) (ap (λ r. a ++ b'.' ∷ r) whole);
      input = rw (h1, h2, h4);
      header_plain = rw h1 h;
      payload_plain = rw h2 plain;
      signature_plain = rw h3 (find_char-none b'.' (drop (suc j) t) g);
    }

split_rest_sound :
    (a t : Text) (found : Option ℕ) (p : Parts)
    → Lacks b'.' a
    → find_char b'.' t ≡ found
    → split_rest a t found ≡ some p
    → IsSplit (a ++ b'.' ∷ t) p
split_rest_sound a t none p h f e = absurd (ground arith)
split_rest_sound a t (some j) p h f e =
    rest_parts_sound a t j (find_char b'.' (drop (suc j) t)) p h f refl e

split_second_sound :
    (s : Text) (found : Option ℕ) (p : Parts)
    → find_char b'.' s ≡ found
    → split_second s found ≡ some p
    → IsSplit s p
unfolding split_token
split_second_sound s none p f e = absurd (ground arith)
split_second_sound s (some i) p f e =
    let (plain, whole) = find_char-some b'.' s i f in
    let a = take i s in
    let t = drop (suc i) s in
    let e' : split_token s ≡ some p = rw f e in
    let split : split_token (a ++ b'.' ∷ t) ≡ some p =
      subst (λ r. split_token r ≡ some p) whole e' in
    let rest : split_rest a t (find_char b'.' t) ≡ some p =
      subst (λ r. r ≡ some p) (split_token-append a t plain) split in
    subst (λ r. IsSplit r p) (sym whole) (split_rest_sound a t (find_char b'.' t) p plain refl rest)

-- What `Authenticate` takes for the parts are the pieces between the two dots.
pub split_token-IsSplit : (s : Text) (p : Parts) → split_token s ≡ some p → IsSplit s p
unfolding split_token
split_token-IsSplit s p e = split_second_sound s (find_char b'.' s) p refl e

drop_behind : (p s : Text) → drop (suc (length p)) (p ++ b'.' ∷ s) ≡ s
drop_behind p s =
    let e : suc (length p) ≡ length p + 1 = omega arith in rw e (drop-append_add p (b'.' ∷ s) 1)

-- Any three dotless pieces are found again.
pub split_token-join :
    (h p s : Text)
    → Lacks b'.' h
    → Lacks b'.' p
    → Lacks b'.' s
    → split_token (h ++ b'.' ∷ (p ++ b'.' ∷ s))
      ≡ some (record { header = h; payload = p; signature = s; signing_input = h ++ b'.' ∷ p })
split_token-join h p s lh lp ls = rw (
  split_token-append h (p ++ b'.' ∷ s) lh,
  find_char-append b'.' p s lp,
  drop_behind p s,
  find_char-Lacks b'.' s ls,
  take-append p (b'.' ∷ s),
  drop_behind p s,
)
