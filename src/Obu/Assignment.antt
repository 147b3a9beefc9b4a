-- ===== src/Obu/Assignment.antt =====
-- obu/main.go: which OBUs the workers of a maximum-throughput run take.
use native.Mathlib.Nat.{mod-eq_of_lt, mod-eq-sub-mod, add-mod_right, mod-add-mod}
use toll_calc.Common.{
  ℕ, zero, suc, ◌+◌, ◌-◌, ◌%◌, ◌^◌, ◌≤◌, ◌<◌, ◌≡◌, ◌≢◌, ◌∙◌, sym, ap, refl, Bool, true, false, ◌||◌,
  List, [], ◌∷◌, arith, leb, ltb, nat_eq, if◌then◌else◌, Bool-cases, inl, inr,
}

-- `for obuID := i + 1; obuID <= cfg.OBUs; obuID += len(connections)`, on fuel. An `int` is here its bit
-- pattern of 64 bits, of which those from 2^63 on are negative; the sum wraps around.
assigned_from : (fuel obu_id total connections : ℕ) → List ℕ
assigned_from zero obu_id total connections = []
assigned_from (suc fuel) obu_id total connections =
    let rest = assigned_from fuel ((obu_id + connections) % 2 ^ 64) total connections in
    if leb obu_id total || leb (2 ^ 63) obu_id then obu_id ∷ rest else []

-- The OBUs of the worker at index `i`. While the total and the number of connections stay below
-- 2^63, no sum wraps around, and each round adds at least one, so `total` rounds are enough.
unfoldable pub assigned_obus : (total connections i : ℕ) → List ℕ
unfolding assigned_from
assigned_obus total connections i = assigned_from total (i + 1) total connections

abbrev pub takes : ℕ → List ℕ → Bool
takes x [] = false
takes x (y ∷ ys) = nat_eq y x || takes x ys

-- The loop on numbers without a bound.
abbrev unbounded_from : (fuel obu_id total connections : ℕ) → List ℕ
unbounded_from zero obu_id total connections = []
unbounded_from (suc fuel) obu_id total connections =
    let rest = unbounded_from fuel (obu_id + connections) total connections in
    if leb obu_id total then obu_id ∷ rest else []

-- Where no sum wraps around, the loops agree.
assigned_from-unbounded :
    (f o total c : ℕ)
    → o ≤ total + c
    → total + c < 2 ^ 63
    → assigned_from f o total c ≡ unbounded_from f o total c
unfolding assigned_from
assigned_from-unbounded zero o total c small room = refl
assigned_from-unbounded (suc f) o total c small room =
    let not_negative : leb (2 ^ 63) o ≡ false = ground (arith, small, room) in
    elim (Bool-cases (leb o total)) [
      | inl inside ↦
          let next : o + c ≤ total + c = ground (arith, inside) in
          let exact : (o + c) % 2 ^ 64 ≡ o + c = mod-eq_of_lt (omega (arith, next, room)) in
          rw (inside, exact, assigned_from-unbounded f (o + c) total c next room) refl
      | inr beyond ↦ rw (beyond, not_negative) refl
    ]

-- Nothing below the first OBU is taken, and nothing beyond the last.
not_below : (f o total c x : ℕ) → x < o → takes x (unbounded_from f o total c) ≡ false
not_below zero o total c x h = refl
not_below (suc f) o total c x h =
    ground (arith, h, not_below f (o + c) total c x (omega (arith, h)))

not_beyond : (f o total c x : ℕ) → total < x → takes x (unbounded_from f o total c) ≡ false
not_beyond zero o total c x h = refl
not_beyond (suc f) o total c x h = ground (arith, h, not_beyond f (o + c) total c x h)

-- A shift by less than the modulus changes the remainder.
shifted_remainder : (i e c : ℕ) → i < c → 0 < e → e < c → (i + e) % c ≢ i
shifted_remainder i e c small some_shift below same = elim (Bool-cases (ltb (i + e) c)) [
  | inl fits ↦
      let it : (i + e) % c ≡ i + e = mod-eq_of_lt (ground (arith, fits)) in
      omega (arith, it, same, some_shift)
  | inr wraps ↦
      let large : c ≤ i + e = ground (arith, wraps) in
      let once : (i + e) % c ≡ (i + e - c) % c = mod-eq-sub-mod large in
      let it : (i + e - c) % c ≡ i + e - c = mod-eq_of_lt (omega (arith, small, below)) in
      omega (arith, once, it, same, below, small, large)
]

not_nat_eq : (a b : ℕ) → a ≢ b → nat_eq a b ≡ false
not_nat_eq a b h = elim (Bool-cases (nat_eq a b)) [
  | inl same ↦ absurd (h (ground (arith, same)))
  | inr other ↦ other
]

takes_from :
    (f o total c i x : ℕ)
    → i < c
    → o % c ≡ i
    → total < suc o + f
    → o ≤ x
    → suc x ≤ total
    → takes (suc x) (unbounded_from f (suc o) total c) ≡ nat_eq (x % c) i
takes_from zero o total c i x small at_o enough above inside =
    absurd (omega (arith, enough, above, inside))
takes_from (suc f) o total c i x small at_o enough above inside =
    let in_range : leb (suc o) total ≡ true = ground (arith, above, inside) in
    elim (Bool-cases (ltb x (o + c))) [
      | inl near ↦
          let rest : takes (suc x) (unbounded_from f (suc o + c) total c) ≡ false =
            not_below f (suc o + c) total c (suc x) (ground (arith, near)) in
          elim (Bool-cases (nat_eq o x)) [
            | inl here ↦
                let same : o ≡ x = ground (arith, here) in
                let at_x : x % c ≡ i = sym (ap (λ y. y % c) same) ∙ at_o in
                rw (in_range, rest, at_x) (ground (arith, same))
            | inr past ↦
                let later : 0 < x - o = ground (arith, past, above) in
                let close : x - o < c = ground (arith, near, above) in
                let whole : o + (x - o) ≡ x = omega (arith, above) in
                let shifted : (i + (x - o)) % c ≡ x % c =
                  ap (λ y. (y + (x - o)) % c) (sym at_o)
                  ∙ mod-add-mod o c (x - o)
                  ∙ ap (λ y. y % c) whole in
                let other : x % c ≢ i =
                  λ same. shifted_remainder i (x - o) c small later close (shifted ∙ same) in
                let new_head : nat_eq (suc o) (suc x) ≡ false = ground (arith, past) in
                rw (in_range, not_nat_eq (x % c) i other, new_head, rest) refl
          ]
      | inr far ↦
          let beyond : o + c ≤ x = ground (arith, far) in
          let next : takes (suc x) (unbounded_from f (suc (o + c)) total c) ≡ nat_eq (x % c) i =
            takes_from f (o + c) total c i x small (add-mod_right o c ∙ at_o)
              (omega (arith, enough, small)) beyond inside in
          let new_head : nat_eq (suc o) (suc x) ≡ false =
            not_nat_eq (suc o) (suc x) (λ same. omega (arith, same, beyond, small)) in
          let shape : suc o + c ≡ suc (o + c) = omega arith in rw (in_range, new_head, shape) next
    ]

takes_unbounded :
    (total c i x : ℕ)
    → i < c
    → suc x ≤ total
    → takes (suc x) (unbounded_from total (i + 1) total c) ≡ nat_eq (x % c) i
takes_unbounded total c i x small inside = elim (Bool-cases (leb i x)) [
  | inl above ↦
      let at_i : i % c ≡ i = mod-eq_of_lt small in
      let shape : i + 1 ≡ suc i = omega arith in
      rw shape
        (takes_from total i total c i x small at_i (omega arith) (ground (arith, above)) inside)
  | inr below ↦
      let less : x < i = ground (arith, below) in
      let at_x : x % c ≡ x = mod-eq_of_lt (omega (arith, less, small)) in
      rw (at_x, not_below total (i + 1) total c (suc x) (omega (arith, less)))
        (sym (not_nat_eq x i (λ same. omega (arith, same, less))))
]

-- Where the total and the number of connections stay below 2^63: of the OBUs from 1 to the total, the
-- worker at index `i`, where `i` is less than the number of connections, takes exactly those whose ID, less one, leaves the remainder `i` by that number.
pub takes-assigned_obus :
    (total connections i x : ℕ)
    → total + connections < 2 ^ 63
    → i < connections
    → suc x ≤ total
    → takes (suc x) (assigned_obus total connections i) ≡ nat_eq (x % connections) i
unfolding assigned_obus
takes-assigned_obus total c i x room small inside =
    rw (assigned_from-unbounded total (i + 1) total c (omega (arith, small, inside)) room)
      (takes_unbounded total c i x small inside)
