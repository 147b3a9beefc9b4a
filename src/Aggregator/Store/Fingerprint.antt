-- ===== src/Aggregator/Store/Fingerprint.antt =====
-- The reconciliation summary depends on the set of event IDs alone: not on the order in which they
-- came, nor on repetitions.
use Prim.Native.Nat.{bit_xor}
use mathlib.Core.Logic.{∥∥₁_elim}
use mathlib.Core.Logic.Or
use mathlib.Core.List.{Mem, Nodup, Perm, Permᴰ, mem-cons, not-mem-nil, Nodup-cons, Nodup-nil}
use mathlib.Core.List.{perm_ext_iff_of_Nodup}
use toll_calc.Common.{
  ℕ, suc, ◌+◌, ◌%◌, ◌≡◌, refl, sym, ap₂, ◌∙◌, ◌↔◌, Bool, true, false, ◌||◌, List, [], ◌∷◌, arith,
  if◌then◌else◌, Bool-cases, inl, inr,
}
use toll_calc.Common.Eq.{◌==◌, List-Eq, ℕ-Eq, list_eq_iff}
use toll_calc.Common.Int.{pos}
use toll_calc.Common.Text.{length, Text, is_empty, anonymous_not_eq}
use toll_calc.Common.Xor.{bit_xor_swap}
use toll_calc.Float.{Float64}
use toll_calc.Types.{Distance, EventReconciliation, event_id_fingerprint, word}
use toll_calc.Aggregator.Store.{
  MemoryStore, count_event, zero_reconciliation, new_memory_store, reconciliation,
}
use toll_calc.Aggregator.Store.Ledger.{Represents, Ledger, recorded, summary, post, post_all}
use toll_calc.Aggregator.Store.Replay.{insert_all, get-insert_all}

-- The summary of a sequence of IDs, newest first.
abbrev pub tally : List Text → EventReconciliation
tally [] = zero_reconciliation
tally (e ∷ es) = count_event (tally es) e

-- The exclusive or of the fingerprints, and their sum.
abbrev pub xor_of : List Text → ℕ
xor_of [] = 0
xor_of (e ∷ es) = bit_xor (xor_of es) (event_id_fingerprint e)

abbrev pub sum_of : List Text → ℕ
sum_of [] = 0
sum_of (e ∷ es) = sum_of es + event_id_fingerprint e

-- The three words for so many events with such sums.
abbrev words_of : (count xor sum : ℕ) → EventReconciliation
words_of count xor sum = record { count = count % word; xor_hash = xor; sum_hash = sum % word }

tally_step :
    (es : List Text) (e : Text)
    → count_event (words_of (length es) (xor_of es) (sum_of es)) e
      ≡ words_of (length (e ∷ es)) (xor_of (e ∷ es)) (sum_of (e ∷ es))
unfolding count_event
tally_step es e =
    let n = length es in
    let p = event_id_fingerprint e in
    let counts : (n % word + 1) % word ≡ suc n % word = omega arith in
    let sums : (sum_of es % word + p) % word ≡ (sum_of es + p) % word = omega arith in
    rw (counts, sums)

tally_lem : (es : List Text) → tally es ≡ words_of (length es) (xor_of es) (sum_of es)
tally_lem [] = refl
tally_lem (e ∷ es) = rw (tally_lem es) (tally_step es e)

-- The order of two events does not matter.
pub count_event_swap :
    (r : EventReconciliation) (a b : Text)
    → count_event (count_event r a) b ≡ count_event (count_event r b) a
unfolding count_event
count_event_swap r a b =
    ground (arith, bit_xor_swap r.xor_hash (event_id_fingerprint a) (event_id_fingerprint b))

tally_permᴰ : {xs ys : List Text} → Permᴰ xs ys → tally xs ≡ tally ys
tally_permᴰ Permᴰ.nil = refl
tally_permᴰ (Permᴰ.cons e p) = ap₂ count_event (tally_permᴰ p) e
tally_permᴰ (Permᴰ.swap {a = a} {b = b} {l = l} e f) = cc (count_event_swap (tally l) a b)
tally_permᴰ (Permᴰ.trans p q) = tally_permᴰ p ∙ tally_permᴰ q

pub tally-perm : {xs ys : List Text} → Perm xs ys → tally xs ≡ tally ys
tally-perm {xs} {ys} p = ∥∥₁_elim p (hlevel) tally_permᴰ

abbrev pub mem : Text → List Text → Bool
mem e [] = false
mem e (x ∷ xs) = x == e || mem e xs

pub mem_iff : (e : Text) (xs : List Text) → (mem e xs ≡ true) ↔ Mem e xs
mem_iff e [] = (λ h. absurd (ground arith), λ m. absurd (not-mem-nil m))
mem_iff e (x ∷ xs) = (
  λ h. elim (Bool-cases (x == e)) [
    | inl here ↦ mem-cons.1 (Or.inl (sym ((list_eq_iff x e).0 here)))
    | inr there ↦ mem-cons.1 (Or.inr ((mem_iff e xs).0 (ground arith)))
  ],
  λ m.
      Or.elim (hlevel) (mem-cons.0 m) (λ same. ground (arith, list_eq_iff x e))
        (λ later. ground (arith, (mem_iff e xs).1 later)),
)

-- Lists without repetitions that have the same members have the same summary.
pub tally-same_set :
    (xs ys : List Text)
    → Nodup xs
    → Nodup ys
    → ((e : Text) → mem e xs ≡ mem e ys)
    → tally xs ≡ tally ys
tally-same_set xs ys p q same = tally-perm (
    (perm_ext_iff_of_Nodup p q).1 λ e. (
      λ m. (mem_iff e ys).0 (sym (same e) ∙ (mem_iff e xs).1 m),
      λ m. (mem_iff e xs).0 (same e ∙ (mem_iff e ys).1 m),
    ))

module _ {F : Type 0} where
  -- The IDs in a ledger, and the IDs in a list of deliveries.
  abbrev pub names : List (Distance F) → List Text
  names [] = []
  names (d ∷ l) = if is_empty d.event_id then names l else d.event_id ∷ names l

  summary-names : (l : Ledger F) → summary l ≡ tally (names l)
  summary-names [] = refl
  summary-names (d ∷ l) = ground (arith, summary-names l)

  pub mem-names : (e : Text) (l : Ledger F) → is_empty e ≡ false → mem e (names l) ≡ recorded e l
  mem-names e [] named = refl
  mem-names e (d ∷ l) named = ground (arith, mem-names e l named, anonymous_not_eq d.event_id e)

  mem-names_anonymous : (e : Text) (l : Ledger F) → is_empty e ≡ true → mem e (names l) ≡ false
  mem-names_anonymous e [] h = refl
  mem-names_anonymous e (d ∷ l) h =
      ground (arith, mem-names_anonymous e l h, list_eq_iff d.event_id e)

  not-Mem-names :
      (d : Distance F) (l : Ledger F)
      → is_empty d.event_id ≡ false
      → recorded d.event_id l ≡ false
      → ¬ Mem d.event_id (names l)
  not-Mem-names d l named new m =
      cc (mem-names d.event_id l named, (mem_iff d.event_id (names l)).1 m)

  pub Nodup-names-post :
      (d : Distance F) (l : Ledger F) → Nodup (names l) → Nodup (names (post d l))
  Nodup-names-post d l h = elim (Bool-cases (is_empty d.event_id)) [
    | inl anonymous ↦ rw (anonymous, anonymous) h
    | inr named ↦ elim (Bool-cases (recorded d.event_id l)) [
      | inl old ↦ rw (named, old) h
      | inr new ↦ rw (named, new, named) (Nodup-cons.1 (not-Mem-names d l named new, h))
    ]
  ]

  Nodup-names-post_all :
      (ds : List (Distance F)) (l : Ledger F) → Nodup (names l) → Nodup (names (post_all ds l))
  Nodup-names-post_all [] l h = h
  Nodup-names-post_all (d ∷ ds) l h = Nodup-names-post_all ds (post d l) (Nodup-names-post d l h)

  recorded-post :
      (d : Distance F) (l : Ledger F) (e : Text)
      → recorded e (post d l) ≡ (d.event_id == e || recorded e l)
  recorded-post d l e = ground (arith, list_eq_iff d.event_id e)

  recorded-post_all :
      (ds : List (Distance F)) (l : Ledger F) (e : Text)
      → recorded e (post_all ds l) ≡ (recorded e ds || recorded e l)
  recorded-post_all [] l e = refl
  recorded-post_all (d ∷ ds) l e =
      ground (arith, recorded-post_all ds (post d l) e, recorded-post d l e)

module _ {F : Type 0} ⦃f : Float64 F⦄ where
  same_names :
      (ds ds' : List (Distance F))
      → ((e : Text) → is_empty e ≡ false → recorded e ds ≡ recorded e ds')
      → (e : Text) → mem e (names (post_all ds [])) ≡ mem e (names (post_all ds' []))
  same_names ds ds' same e = elim (Bool-cases (is_empty e)) [
    | inl anonymous ↦
        mem-names_anonymous e (post_all ds []) anonymous
        ∙ sym (mem-names_anonymous e (post_all ds' []) anonymous)
    | inr named ↦ ground (
      arith,
      mem-names e (post_all ds []) named,
      mem-names e (post_all ds' []) named,
      recorded-post_all ds [] e,
      recorded-post_all ds' [] e,
      same e named,
    )
  ]

  -- Two runs from empty stores that were delivered the same set of event IDs, in whatever order and
  -- with whatever repetitions, report the same reconciliation.
  pub reconciliation-same_set :
      (ds ds' : List (Distance F))
      → ((e : Text) → is_empty e ≡ false → recorded e ds ≡ recorded e ds')
      → reconciliation (insert_all ds new_memory_store).1
        ≡ reconciliation (insert_all ds' new_memory_store).1
  reconciliation-same_set ds ds' same = cc (
    (get-insert_all ds (pos 0)).1,
    (get-insert_all ds' (pos 0)).1,
    summary-names (post_all ds []),
    summary-names (post_all ds' []),
    tally-same_set (names (post_all ds [])) (names (post_all ds' []))
        (Nodup-names-post_all ds [] Nodup-nil) (Nodup-names-post_all ds' [] Nodup-nil)
        (same_names ds ds' same),
  )

  -- A store that stands for a ledger with exactly these IDs states their number, the exclusive or
  -- of their fingerprints, and the sum.
  pub reconciliation_of_ledger :
      (m : MemoryStore F) (l : Ledger F) (written : List Text)
      → Represents l m
      → Nodup (names l)
      → Nodup written
      → ((e : Text) → mem e (names l) ≡ mem e written)
      → ((reconciliation m).count ≡ length written % word)
        × ((reconciliation m).xor_hash ≡ xor_of written)
        × ((reconciliation m).sum_hash ≡ sum_of written % word)
  unfolding reconciliation
  reconciliation_of_ledger m l written r distinct once same =
      let states : m.reconcile ≡ tally written =
        r.reconcile ∙ summary-names l ∙ tally-same_set (names l) written distinct once same in
      rw (states, tally_lem written) (refl, refl, refl)

  names_written :
      (written : List Text) (ds : List (Distance F))
      → mem [] written ≡ false
      → ((e : Text) → is_empty e ≡ false → recorded e ds ≡ mem e written)
      → (e : Text) → mem e (names (post_all ds [])) ≡ mem e written
  names_written written ds all_named same [] =
      mem-names_anonymous [] (post_all ds []) refl ∙ sym all_named
  names_written written ds all_named same (c ∷ e) = ground (
    arith,
    mem-names (c ∷ e) (post_all ds []) refl,
    recorded-post_all ds [] (c ∷ e),
    same (c ∷ e) refl,
  )

  reconciliation-eq-tally :
      (written : List Text) (ds : List (Distance F))
      → Nodup written
      → mem [] written ≡ false
      → ((e : Text) → is_empty e ≡ false → recorded e ds ≡ mem e written)
      → reconciliation (insert_all ds new_memory_store).1 ≡ tally written
  reconciliation-eq-tally written ds distinct all_named same = cc (
    (get-insert_all ds (pos 0)).1,
    summary-names (post_all ds []),
    tally-same_set (names (post_all ds [])) written (Nodup-names-post_all ds [] Nodup-nil) distinct
        (names_written written ds all_named same),
  )

  -- A store that was empty and was delivered exactly the events of a list of IDs without
  -- repetitions and without the empty ID, in whatever order and however often each, reports that
  -- list's length, the exclusive or of the fingerprints, and their sum, as 64-bit words.
  pub reconciliation_of_delivered :
      (written : List Text) (ds : List (Distance F))
      → Nodup written
      → mem [] written ≡ false
      → ((e : Text) → is_empty e ≡ false → recorded e ds ≡ mem e written)
      → let r = reconciliation (insert_all ds new_memory_store).1 in
        (r.count ≡ length written % word)
        × (r.xor_hash ≡ xor_of written)
        × (r.sum_hash ≡ sum_of written % word)
  reconciliation_of_delivered written ds distinct all_named same =
      rw (reconciliation-eq-tally written ds distinct all_named same, tally_lem written)
        (refl, refl, refl)
