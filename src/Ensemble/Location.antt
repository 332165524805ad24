-- ===== src/Ensemble/Location.antt =====
-- dms/jobs/types/ensemble.go: locations and the constraints on them.
use device_management_servic.Common.{
  ℕ, String, Bool, true, false, if◌then◌else◌, str_eq, str_eq_iff, nat_eq, ltb, List, [], ◌∷◌, any,
  all, is_nil, any-Memᴰ, all-Memᴰ, Memᴰ-any, ◌&&◌, ◌||◌, not, ◌≡◌, refl, ◌∙◌, arith,
}

pub record Location : Type 0 where
  pub continent : String
  pub country : String
  pub city : String
  pub asn : ℕ
  pub isp : String

-- The tests of `Location.Equal` on an optional text, and on the number of a network
unfoldable pub agrees : String → String → Bool
agrees a b = str_eq a "" || str_eq a b

unfoldable pub agrees_asn : ℕ → ℕ → Bool
agrees_asn a b = not (ltb 0 a) || nat_eq a b

-- `Location.Equal`: what `l` leaves open agrees with anything.
unfoldable pub location_equal : Location → Location → Bool
unfolding agrees agrees_asn
location_equal l other =
    str_eq l.continent other.continent
    && agrees l.country other.country
    && agrees l.city other.city
    && agrees_asn l.asn other.asn
    && agrees l.isp other.isp

pub record LocationConstraints : Type 0 where
  pub accept : List Location
  pub reject : List Location

-- `Location.Satisfies`: a list of accepted locations takes precedence.
unfoldable pub satisfies : Location → LocationConstraints → Bool
unfolding location_equal
satisfies l c =
    if is_nil c.accept
    then not (any c.reject (λ r. location_equal r l))
    else any c.accept (λ a. location_equal a l)

-- `covers`, of `validateLocationConstraintsUpdate`
unfoldable pub covers : List Location → List Location → Bool
unfolding location_equal
covers super sub = all sub (λ loc. any super (λ candidate. location_equal candidate loc))

-- `validateLocationConstraintsUpdate` of dms/orchestrator/manifest_diff.go
unfoldable pub validate_location_constraints_update :
    LocationConstraints → LocationConstraints → Bool
unfolding covers
validate_location_constraints_update current new =
    if not (is_nil new.accept) && (is_nil current.accept || not (covers new.accept current.accept))
    then false
    else if is_nil new.accept && not (is_nil current.accept) && not (is_nil new.reject)
    then false
    else not (
        not (is_nil new.reject)
        && (is_nil current.reject || not (covers current.reject new.reject)))

agrees_trans : (a b c : String) → agrees a b ≡ true → agrees b c ≡ true → agrees a c ≡ true
unfolding agrees
agrees_trans a b c h k =
    ground (arith, str_eq_iff a "", str_eq_iff a b, str_eq_iff b "", str_eq_iff b c, str_eq_iff a c)

agrees_asn_trans :
    (a b c : ℕ) → agrees_asn a b ≡ true → agrees_asn b c ≡ true → agrees_asn a c ≡ true
unfolding agrees_asn
agrees_asn_trans a b c h k = ground arith

-- Five tests that all hold.
all_five :
    (p q r s t : Bool)
    → (p && q && r && s && t) ≡ true
    → (p ≡ true) × (q ≡ true) × (r ≡ true) × (s ≡ true) × (t ≡ true)
all_five p q r s t h = ground arith

five_all :
    (p q r s t : Bool)
    → p ≡ true
    → q ≡ true
    → r ≡ true
    → s ≡ true
    → t ≡ true
    → (p && q && r && s && t) ≡ true
five_all p q r s t hp hq hr hs ht = ground arith

fields :
    (a b : Location)
    → location_equal a b ≡ true
    → (str_eq a.continent b.continent ≡ true)
      × (agrees a.country b.country ≡ true)
      × (agrees a.city b.city ≡ true)
      × (agrees_asn a.asn b.asn ≡ true)
      × (agrees a.isp b.isp ≡ true)
unfolding location_equal
fields a b =
    all_five (str_eq a.continent b.continent) (agrees a.country b.country) (agrees a.city b.city)
      (agrees_asn a.asn b.asn) (agrees a.isp b.isp)

pub location_equal_trans :
    (a b c : Location)
    → location_equal a b ≡ true
    → location_equal b c ≡ true
    → location_equal a c ≡ true
unfolding location_equal
location_equal_trans a b c h k =
    let (h0, h1, h2, h3, h4) = fields a b h in
    let (k0, k1, k2, k3, k4) = fields b c k in
    five_all (str_eq a.continent c.continent) (agrees a.country c.country) (agrees a.city c.city)
      (agrees_asn a.asn c.asn) (agrees a.isp c.isp)
      ((str_eq_iff a.continent c.continent).1
        ((str_eq_iff a.continent b.continent).0 h0 ∙ (str_eq_iff b.continent c.continent).0 k0))
      (agrees_trans a.country b.country c.country h1 k1) (agrees_trans a.city b.city c.city h2 k2)
      (agrees_asn_trans a.asn b.asn c.asn h3 k3) (agrees_trans a.isp b.isp c.isp h4 k4)

-- What one of `sub` agrees with, one of a list that covers `sub` agrees with.
covers-any :
    (super sub : List Location) (l : Location)
    → covers super sub ≡ true
    → any sub (λ a. location_equal a l) ≡ true
    → any super (λ a. location_equal a l) ≡ true
unfolding covers
covers-any super sub l h k =
    let (a, m, e) = any-Memᴰ sub (λ a. location_equal a l) k in
    let (c, n, f) =
      any-Memᴰ super (λ c. location_equal c a)
        (all-Memᴰ (λ loc. any super (λ candidate. location_equal candidate loc)) h m) in
    Memᴰ-any (λ c. location_equal c l) n (location_equal_trans c a l f e)

any-nil : (xs : List Location) (p : Location → Bool) → is_nil xs ≡ true → any xs p ≡ false
any-nil [] p h = refl
any-nil (x ∷ xs) p h = cc

-- A valid update of the constraints of a node keeps every location that satisfied them: no node
-- that is deployed has to move.
pub validate_location-satisfies :
    (current new : LocationConstraints) (l : Location)
    → validate_location_constraints_update current new ≡ true
    → satisfies l current ≡ true
    → satisfies l new ≡ true
unfolding satisfies validate_location_constraints_update
validate_location-satisfies current new l v h = ground (
  arith,
  covers-any new.accept current.accept l,
  covers-any current.reject new.reject l,
  any-nil new.reject (λ a. location_equal a l),
  any-nil current.reject (λ a. location_equal a l),
)
