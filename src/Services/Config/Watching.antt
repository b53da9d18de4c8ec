-- ===== src/Services/Config/Watching.antt =====
-- Tables of configuration entries, and the updates that CollectNamespace takes from one.
pub mod Changes
use kd.Base.{
  ℕ, suc, ◌≡◌, refl, sym, ◌∙◌, ◌⊎◌, inl, inr, true, false, ◌&&◌, Bool-cases, Option, none, some,
  List, [], ◌∷◌, Text, str_eq, str_eq_refl, str_eq_iff, eq_of_str_eq, lookup, insert, lookup-insert,
  Dict, arith, ℤ, pos, ltb_ℤ, if◌then◌else◌,
}
use kd.Api.{ConfigEntry}
use kd.Services.Config.{build_store_key, newer_entries}

abbrev pub Member : ConfigEntry → List ConfigEntry → Type 0
Member a [] = ⊥
Member a (x ∷ xs) = (a ≡ x) ⊎ Member a xs

abbrev pub NoRepeats : List ConfigEntry → Type 0
NoRepeats [] = Unit {0}
NoRepeats (x ∷ xs) = (¬ Member x xs) × NoRepeats xs

abbrev pub key_of : ConfigEntry → Text
key_of e = build_store_key e.namespace_name e.key e.environment

-- A table of entries: each under its own key, no key twice, and all versions below `next`.
abbrev pub IsTable : ℕ → Dict ConfigEntry → Type 0
IsTable next [] = Unit {0}
IsTable next ((k, e) ∷ m) =
    (k ≡ key_of e) × (lookup k m ≡ none) × (ltb_ℤ e.version (pos next) ≡ true) × IsTable next m

pub IsTable-suc : (next : ℕ) (m : Dict ConfigEntry) → IsTable next m → IsTable (suc next) m
IsTable-suc next [] t = tt
IsTable-suc next ((k, e) ∷ m) (own, single, below, t) =
    (own, single, ground arith, IsTable-suc next m t)

pub insert-IsTable :
    (next : ℕ) (k : Text) (e : ConfigEntry) (m : Dict ConfigEntry)
    → k ≡ key_of e
    → ltb_ℤ e.version (pos next) ≡ true
    → IsTable next m
    → IsTable next (insert k e m)
unfolding insert lookup
insert-IsTable next k e [] own below t = (own, refl, below, tt)
insert-IsTable next k e ((j, i) ∷ m) own below (own', single, below', t) =
    elim (Bool-cases (str_eq j k)) [
      | inl same ↦ rw same (eq_of_str_eq j k same ∙ own, single, below, t)
      | inr other ↦
          let kept : lookup j (insert k e m) ≡ none =
            rw (lookup-insert k j e m) (ground (arith, str_eq_iff j k, str_eq_iff k j)) in
          rw other (own', kept, below', insert-IsTable next k e m own below t)
    ]

pub lookup-below :
    (next : ℕ) (k : Text) (e : ConfigEntry) (m : Dict ConfigEntry)
    → IsTable next m
    → lookup k m ≡ some e
    → ltb_ℤ e.version (pos next) ≡ true
unfolding lookup
lookup-below next k e [] t h = absurd (cc h)
lookup-below next k e ((j, i) ∷ m) (own, single, below, t) h =
    ground (arith, lookup-below next k e m t)

lookup-key :
    (next : ℕ) (k : Text) (e : ConfigEntry) (m : Dict ConfigEntry)
    → IsTable next m
    → lookup k m ≡ some e
    → k ≡ key_of e
unfolding lookup
lookup-key next k e [] t h = absurd (cc h)
lookup-key next k e ((j, i) ∷ m) (own, single, below, t) h = elim (Bool-cases (str_eq j k)) [
  | inl found ↦
      let h1 : ◌≡◌ {A = Option ConfigEntry} (some i) (some e) = rw found at h in
      let same : i ≡ e = cc h1 in sym (eq_of_str_eq j k found) ∙ (rw⁻¹ same own)
  | inr other ↦ lookup-key next k e m t (rw other at h)
]

-- The updates are the entries of the table with the namespace and a later version.
pub newer_sound :
    (next : ℕ) (ns : Text) (since : ℤ) (e : ConfigEntry) (m : Dict ConfigEntry)
    → IsTable next m
    → Member e (newer_entries m ns since)
    → (e.namespace_name ≡ ns) × (ltb_ℤ since e.version ≡ true) × (lookup (key_of e) m ≡ some e)
unfolding newer_entries lookup
newer_sound next ns since e [] t h = absurd h
newer_sound next ns since e ((j, i) ∷ m) (own, single, below, t) h =
    let later : Member e (newer_entries m ns since)
        → (e.namespace_name ≡ ns)
          × (ltb_ℤ since e.version ≡ true)
          × ((if str_eq j (key_of e) then some i else lookup (key_of e) m) ≡ some e) =
      λ in_rest.
        let (named, newer, found) = newer_sound next ns since e m t in_rest in
        let other : str_eq j (key_of e) ≡ false = ground (arith, str_eq_iff j (key_of e)) in
        (named, newer, rw other found) in
    elim (Bool-cases (str_eq i.namespace_name ns && ltb_ℤ since i.version)) [
      | inl new ↦ elim (rw new at h) [
        | inl same ↦
            let named : str_eq i.namespace_name ns ≡ true = ground arith in
            let newer : ltb_ℤ since i.version ≡ true = ground arith in
            rw same (eq_of_str_eq _ _ named, newer, rw (own, str_eq_refl (key_of i)) refl)
        | inr in_rest ↦ later in_rest
      ]
      | inr old ↦ later (rw old at h)
    ]

pub newer_complete :
    (k : Text) (since : ℤ) (e : ConfigEntry) (m : Dict ConfigEntry)
    → lookup k m ≡ some e
    → ltb_ℤ since e.version ≡ true
    → Member e (newer_entries m e.namespace_name since)
unfolding newer_entries lookup
newer_complete k since e [] h newer = absurd (cc h)
newer_complete k since e ((j, i) ∷ rest) h newer = elim (Bool-cases (str_eq j k)) [
  | inl found ↦
      let h1 : ◌≡◌ {A = Option ConfigEntry} (some i) (some e) = rw found at h in
      let same : e ≡ i = cc h1 in
      let test : (str_eq i.namespace_name e.namespace_name && ltb_ℤ since i.version) ≡ true =
        rw⁻¹ same (rw (str_eq_refl e.namespace_name, newer) refl) in
      rw test (inl same)
  | inr other ↦
      elim (Bool-cases (str_eq i.namespace_name e.namespace_name && ltb_ℤ since i.version)) [
        | inl test ↦ rw test (inr (newer_complete k since e rest (rw other at h) newer))
        | inr test ↦ rw test (newer_complete k since e rest (rw other at h) newer)
      ]
]

pub newer-NoRepeats :
    (next : ℕ) (ns : Text) (since : ℤ) (m : Dict ConfigEntry)
    → IsTable next m
    → NoRepeats (newer_entries m ns since)
unfolding newer_entries
newer-NoRepeats next ns since [] t = tt
newer-NoRepeats next ns since ((j, i) ∷ m) (own, single, below, t) =
    elim (Bool-cases (str_eq i.namespace_name ns && ltb_ℤ since i.version)) [
      | inl new ↦ rw new (
        λ again.
            let found = (newer_sound next ns since i m t again).2 in
            let none_found : lookup (key_of i) m ≡ none = rw⁻¹ own single in cc (found, none_found),
        newer-NoRepeats next ns since m t,
      )
      | inr old ↦ rw old (newer-NoRepeats next ns since m t)
    ]
