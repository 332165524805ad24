-- ===== src/Ucan/Context/Every.antt =====
-- lib/ucan/context.go: a property of all tokens in a map of token lists, and the map operations.
use mathlib.Core.List.Memᴰ
use device_management_servic.Common.{
  ℕ, String, Bool, List, [], ◌∷◌, some, ◌≡◌, sym, subst, inl, inr, Memᴰ, Bool-cases, Option-cases,
}
use device_management_servic.Common.Map.{
  Map, lookup, insert, erase, keys, lookup-keys, update_keys, update_all, prune_keys, prune,
}
use device_management_servic.Ucan.Did.{Did}
use device_management_servic.Ucan.Token.{Token}
use device_management_servic.Ucan.Context.State.{get_tokens, or_nil}
use device_management_servic.Ucan.Context.State.Listed.{
  Under, Under-insert, Under-insert_cases, Under-erase, get_tokens-sub,
}

module _ (P : String → Token → Type 0) where
  -- Every token of the list, which stands under the key.
  abbrev pub AllIn : String → List Token → Type 0
  AllIn key l = (t : Token) → Memᴰ t l → P key t

  -- Every token of the map.
  abbrev pub Every : Map (List Token) → Type 0
  Every m = (key : String) (t : Token) → Under m key t → P key t

  pub Every-lookup :
      (key : String) (m : Map (List Token)) {l : List Token}
      → Every m
      → lookup key m ≡ some l
      → AllIn key l
  Every-lookup key m {l} e h t i = e key t (record { list = l; found = h; member = i })

  pub Every-or_nil :
      (key : String) (m : Map (List Token)) → Every m → AllIn key (or_nil (lookup key m))
  Every-or_nil key m e t i = elim (Option-cases (lookup key m)) [
    | inl p ↦ absurd (Memᴰ.not-nil {a = t} (rw p at i))
    | inr (l, p) ↦ Every-lookup key m e p t (rw p at i)
  ]

  pub Every-insert :
      (key : String) (l : List Token) (m : Map (List Token))
      → AllIn key l
      → Every m
      → Every (insert key l m)
  Every-insert key l m a e j t u = elim (Under-insert m key j l t u) [
    | inl (same, i) ↦ subst (λ s. P s t) same (a t i)
    | inr old ↦ e j t old
  ]

  pub Every-erase : (key : String) (m : Map (List Token)) → Every m → Every (erase key m)
  Every-erase key m e j t u = e j t (Under-erase m key j t u)

  pub Every-get_tokens :
      (m : Map (List Token)) (did : Did) (now : ℕ) → Every m → Every (get_tokens m did now).1
  Every-get_tokens m did now e key t u = e key t (get_tokens-sub m did now key t u)

  -- A list function that only drops tokens.
  Every-prune_keys :
      (f : List Token → List Token) (gone : List Token → Bool) (m : Map (List Token))
      (ks : List String)
      → ((l : List Token) (t : Token) → Memᴰ t (f l) → Memᴰ t l)
      → Every m
      → Every (prune_keys f gone m ks)
  unfolding prune_keys
  Every-prune_keys f gone m [] s e = e
  Every-prune_keys f gone m (k ∷ ks) s e = elim (Option-cases (lookup k m)) [
    | inl p ↦ rw (p, prune_keys) (Every-prune_keys f gone m ks s e)
    | inr (l, p) ↦ elim (Bool-cases (gone (f l))) [
      | inl g ↦ rw (p, g, prune_keys) (Every-prune_keys f gone (erase k m) ks s (Every-erase k m e))
      | inr n ↦
          rw (p, n, prune_keys)
            (Every-prune_keys f gone (insert k (f l) m) ks s
              (Every-insert k (f l) m (λ t i. Every-lookup k m e p t (s l t i)) e))
    ]
  ]

  pub Every-prune :
      (f : List Token → List Token) (gone : List Token → Bool) (m : Map (List Token))
      → ((l : List Token) (t : Token) → Memᴰ t (f l) → Memᴰ t l)
      → Every m
      → Every (prune f gone m)
  unfolding prune
  Every-prune f gone m s e = Every-prune_keys f gone m (keys m) s e

-- A list function that drops the tokens without a property: after the loop over the keys, what
-- stands under a key has the property, unless the key was not visited.
module _ (Q : Token → Type 0) (f : List Token → List Token)
    (drops : (l : List Token) (t : Token) → Memᴰ t (f l) → Memᴰ t l × Q t) where
  Under-update_keys :
      (m : Map (List Token)) (ks : List String) (key : String) (t : Token)
      → Under (update_keys f m ks) key t
      → Under m key t × (Memᴰ key ks → Q t)
  unfolding update_keys
  Under-update_keys m [] key t u = (u, λ i. absurd (Memᴰ.not-nil i))
  Under-update_keys m (k ∷ ks) key t u = elim (Option-cases (lookup k m)) [
    | inl p ↦
        let (v, q) = Under-update_keys m ks key t (rw (p, update_keys) at u) in
        (v, λ i. elim (Memᴰ.cases_cons i) [ inl e ↦ cc (v.found, p, e) | inr j ↦ q j ])
    | inr (l, p) ↦
        let (v, q) = Under-update_keys (insert k (f l) m) ks key t (rw (p, update_keys) at u) in
        elim (Under-insert_cases m k key (f l) t v) [
          | inl (same, i) ↦ (
            record { list = l; found = rw (← same) p; member = (drops l t i).0 },
            λ j. (drops l t i).1,
          )
          | inr (other, old) ↦
              (old, λ i. elim (Memᴰ.cases_cons i) [ inl e ↦ absurd (other (sym e)) | inr j ↦ q j ])
        ]
  ]

  pub Under-update_all :
      (m : Map (List Token)) (key : String) (t : Token)
      → Under (update_all f m) key t
      → Under m key t × Q t
  unfolding update_all
  Under-update_all m key t u =
      let (v, q) = Under-update_keys m (keys m) key t u in (v, q (lookup-keys key m v.found))
