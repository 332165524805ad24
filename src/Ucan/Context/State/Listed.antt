-- ===== src/Ucan/Context/State/Listed.antt =====
-- lib/ucan/context.go: the tokens that a map of token lists holds.
use mathlib.Core.List.Memᴰ
use device_management_servic.Common.{
  ℕ, String, false, List, some, ◌≡◌, ◌≢◌, subst, arith, ◌⊎◌, inl, inr, Memᴰ, Memᴰ-delete_func,
  delete_func-Memᴰ, Option-cases, Bool-cases, str_eq, str_eq_iff, str_eq_refl, ◌↔◌,
}
use device_management_servic.Common.Map.{Map, lookup, insert, erase, lookup-insert, lookup-erase}
use device_management_servic.Ucan.Did.{Did}
use device_management_servic.Ucan.Token.{Token, expire_before}
use device_management_servic.Ucan.Context.State.{live, get_tokens}

-- The list under a key holds the token.
pub record Under (m : Map (List Token)) (key : String) (t : Token) : Type 0 where
  pub list : List Token
  pub found : lookup key m ≡ some list
  pub member : Memᴰ t list

-- Some list of the map does.
abbrev pub Listed : Map (List Token) → Token → Type 0
Listed m t = (key : String) × Under m key t

pub live_iff :
    (now : ℕ) (l : List Token) (t : Token)
    → Memᴰ t (live now l) ↔ (Memᴰ t l × (expire_before t now ≡ false))
unfolding live
live_iff now l t = (
  λ m. Memᴰ-delete_func l (λ u. expire_before u now) m,
  λ w. delete_func-Memᴰ (λ u. expire_before u now) w.0 w.1,
)

-- What is stored under a key after an insertion.
found-insert :
    (m : Map (List Token)) (k key : String) (l list : List Token)
    → lookup key (insert k l m) ≡ some list
    → ((k ≡ key) × (l ≡ list)) ⊎ ((k ≢ key) × (lookup key m ≡ some list))
found-insert m k key l list h = elim (Bool-cases (str_eq k key)) [
  | inl same ↦ inl ((str_eq_iff k key).0 same, ground (arith, lookup-insert k key l m))
  | inr other ↦
      inr (λ e. cc ((str_eq_iff k key).1 e, other), ground (arith, lookup-insert k key l m))
]

pub Under-insert_cases :
    (m : Map (List Token)) (k key : String) (l : List Token) (t : Token)
    → Under (insert k l m) key t
    → ((k ≡ key) × Memᴰ t l) ⊎ ((k ≢ key) × Under m key t)
Under-insert_cases m k key l t u = elim (found-insert m k key l u.list u.found) [
  | inl (same, e) ↦ inl (same, rw e u.member)
  | inr (other, old) ↦ inr (other, record { list = u.list; found = old; member = u.member })
]

pub Under-insert :
    (m : Map (List Token)) (k key : String) (l : List Token) (t : Token)
    → Under (insert k l m) key t
    → ((k ≡ key) × Memᴰ t l) ⊎ Under m key t
Under-insert m k key l t u = elim (Under-insert_cases m k key l t u) [
  | inl new ↦ inl new
  | inr (other, old) ↦ inr old
]

pub Under-erase :
    (m : Map (List Token)) (k key : String) (t : Token) → Under (erase k m) key t → Under m key t
Under-erase m k key t u = record {
  list = u.list;
  found = ground (arith, lookup-erase k key m, u.found);
  member = u.member;
}

pub insert-Under :
    (m : Map (List Token)) (k : String) (l : List Token) (t : Token)
    → Memᴰ t l
    → Under (insert k l m) k t
insert-Under m k l t i = record {
  list = l;
  found = ground (arith, lookup-insert k k l m, str_eq_refl k);
  member = i;
}

pub insert-Under_other :
    (m : Map (List Token)) (k key : String) (l : List Token) (t : Token)
    → str_eq k key ≡ false
    → Under m key t
    → Under (insert k l m) key t
insert-Under_other m k key l t h u = record {
  list = u.list;
  found = ground (arith, lookup-insert k key l m, u.found);
  member = u.member;
}

module _ (m : Map (List Token)) (did : Did) (now : ℕ) where
  -- `getTokens` returns the tokens under its key that have not expired.
  pub get_tokens-Under :
      (t : Token)
      → Memᴰ t (get_tokens m did now).0
      → Under m did.uri t × (expire_before t now ≡ false)
  unfolding get_tokens
  get_tokens-Under t i = elim (Option-cases (lookup did.uri m)) [
    | inl e ↦ absurd (Memᴰ.not-nil {a = t} (rw (e, get_tokens) at i))
    | inr (l, e) ↦
        let (k, h) = (live_iff now l t).0 (rw (e, get_tokens) at i) in
        (record { list = l; found = e; member = k }, h)
  ]

  pub Under-get_tokens :
      (t : Token)
      → Under m did.uri t
      → expire_before t now ≡ false
      → Memᴰ t (get_tokens m did now).0
  unfolding get_tokens
  Under-get_tokens t u h = rw (u.found, get_tokens) ((live_iff now u.list t).1 (u.member, h))

  -- It stores no new token, and drops expired tokens only.
  pub get_tokens-sub :
      (key : String) (t : Token) → Under (get_tokens m did now).1 key t → Under m key t
  unfolding get_tokens
  get_tokens-sub key t u = elim (Option-cases (lookup did.uri m)) [
    | inl e ↦ (rw (e, get_tokens) at u)
    | inr (l, e) ↦ elim (Under-insert m did.uri key (live now l) t (rw (e, get_tokens) at u)) [
      | inl (same, i) ↦ record {
        list = l;
        found = rw (← same) e;
        member = ((live_iff now l t).0 i).0;
      }
      | inr old ↦ old
    ]
  ]

  pub get_tokens-keeps :
      (key : String) (t : Token)
      → Under m key t
      → expire_before t now ≡ false
      → Under (get_tokens m did now).1 key t
  unfolding get_tokens
  get_tokens-keeps key t u h = elim (Option-cases (lookup did.uri m)) [
    | inl e ↦ rw (e, get_tokens) u
    | inr (l, e) ↦ elim (Bool-cases (str_eq did.uri key)) [
      | inl same ↦
          let p = (str_eq_iff did.uri key).0 same in
          let q : u.list ≡ l = cc (p, e, u.found) in
          rw (e, get_tokens)
            (subst (λ k. Under (insert did.uri (live now l) m) k t) p
              (insert-Under m did.uri (live now l) t
                ((live_iff now l t).1 (subst (Memᴰ t) q u.member, h))))
      | inr other ↦ rw (e, get_tokens) (insert-Under_other m did.uri key (live now l) t other u)
    ]
  ]
