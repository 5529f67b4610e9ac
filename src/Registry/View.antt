-- ===== src/Registry/View.antt =====
-- mt_v2.go: the registry as Go's map. What is registered under which code counts, and not the order in
-- which it came in, so the map is a quotient of the lists of entries.
use mathlib.Core.Quot
use mathlib.Core.Quot.{Quot, Quot-set}
use text.Mathlib.TextEquality.{IsScalar-prop}
use atxp.Common.{
  ◌≡◌, ◌≢◌, refl, ap, ap₂, sym, ◌∙◌, Bool, true, false, Bool-cases, inl, inr, Option, none, some,
  arith,
}
use atxp.Common.Int.{eq_int, eq_int_iff}
use atxp.Message.{Mt}
use atxp.Registry.{MtV2, Registry, new_mt, lookup_mt}
use atxp.Registry.Laws.{registered, new_mt-lookup_mt}

-- The two lists have the same entries.
abbrev pub SameEntries : Registry → Registry → Type 0
SameEntries m m' = (code : Mt) → lookup_mt code m ≡ lookup_mt code m'

abbrev pub View : Type 0
View = Quot SameEntries

abbrev pub view : Registry → View
view = Quot.mk

mt_v2-set : IsSet (Option MtV2)
mt_v2-set = hlevel IsScalar-prop

new_mt-SameEntries :
    (mt : MtV2) (m m' : Registry)
    → SameEntries m m'
    → ((new_mt mt m).0 ≡ (new_mt mt m').0) × SameEntries (new_mt mt m).1 (new_mt mt m').1
new_mt-SameEntries mt m m' h =
    let same = λ (code : Mt).
      new_mt-lookup_mt mt code m
      ∙ ap₂ (registered mt code) (h mt.code) (h code)
      ∙ sym (new_mt-lookup_mt mt code m') in
    (ap (λ q. q.0) (same mt.code), λ code. ap (λ q. q.1) (same code))

-- What is registered under a code.
unfoldable pub under : Mt → View → Option MtV2
unfolding mt_v2-set
under code = Quot.lift mt_v2-set (lookup_mt code) (λ m m' h. h code)

-- `NewMT` on the map.
unfoldable pub register : MtV2 → View → Bool × View
unfolding new_mt-SameEntries
register mt =
    Quot.lift (hlevel Quot-set) (λ m. ((new_mt mt m).0, view (new_mt mt m).1))
      (λ m m' h.
        let (same, entries) = new_mt-SameEntries mt m m' h in
        ap₂ (λ b v. (b, v)) same (Quot.sound entries))

-- Maps with the same entries are equal.
View-ext : (v v' : View) → ((code : Mt) → under code v ≡ under code v') → v ≡ v'
unfolding under
View-ext = Quot.ind (λ _. hlevel Quot-set) λ m. Quot.ind (λ _. hlevel Quot-set) λ m'. Quot.sound

under-register :
    (mt : MtV2) (code : Mt) (v : View)
    → ((register mt v).0, under code (register mt v).1)
      ≡ registered mt code (under mt.code v) (under code v)
unfolding under register
under-register mt code = Quot.ind (λ _. hlevel mt_v2-set) (new_mt-lookup_mt mt code)

under-register_map :
    (mt : MtV2) (code : Mt) (v : View)
    → under code (register mt v).1 ≡ (registered mt code (under mt.code v) (under code v)).1
under-register_map mt code v = ap (λ q. q.1) (under-register mt code v)

registers :
    (mt : MtV2) (v : View)
    → (register mt v).0 ≡ (registered mt mt.code (under mt.code v) (under mt.code v)).0
registers mt v = ap (λ q. q.0) (under-register mt mt.code v)

registered_other :
    (mt : MtV2) (code : Mt) (o before : Option MtV2)
    → mt.code ≢ code
    → (registered mt code o before).1 ≡ before
registered_other mt code (some old) before h = refl
registered_other mt code none before h = ground (arith, eq_int_iff mt.code code)

registered_comm :
    (a b : MtV2) (code : Mt) (oa ob before : Option MtV2)
    → a.code ≢ b.code
    → (registered b code ob (registered a code oa before).1).1
      ≡ (registered a code oa (registered b code ob before).1).1
registered_comm a b code (some x) ob before h = refl
registered_comm a b code none (some y) before h = refl
registered_comm a b code none none before h =
    ground (arith, eq_int_iff a.code code, eq_int_iff b.code code)

-- The type `b` is registered behind `a`.
under-register_twice :
    (a b : MtV2) (code : Mt) (v : View)
    → a.code ≢ b.code
    → under code (register b (register a v).1).1
      ≡ (registered b code (under b.code v) (registered a code (under a.code v) (under code v)).1).1
under-register_twice a b code v h =
    under-register_map b code (register a v).1
    ∙ ap₂ (λ o before. (registered b code o before).1)
        (under-register_map a b.code v
          ∙ registered_other a b.code (under a.code v) (under b.code v) h)
        (under-register_map a code v)

-- The second of two calls has the result that it would have alone.
registers_behind :
    (a b : MtV2) (v : View) → a.code ≢ b.code → (register b (register a v).1).0 ≡ (register b v).0
registers_behind a b v h =
    registers b (register a v).1
    ∙ ap (λ o. (registered b b.code o o).0)
        (under-register_map a b.code v
          ∙ registered_other a b.code (under a.code v) (under b.code v) h)
    ∙ sym (registers b v)

-- A code that is taken is refused.
register_taken :
    (mt old : MtV2) (v : View) → under mt.code v ≡ some old → register mt v ≡ (false, v)
register_taken mt old v h =
    ap₂ (λ b u. (b, u)) (registers mt v ∙ ap (λ o. (registered mt mt.code o o).0) h)
      (View-ext _ _ (λ code.
        under-register_map mt code v ∙ ap (λ o. (registered mt code o (under code v)).1) h))

-- Behind a call the code is taken.
registered_self :
    (mt : MtV2) (code : Mt) (o : Option MtV2)
    → mt.code ≡ code
    → (old : MtV2) × ((registered mt code o o).1 ≡ some old)
registered_self mt code (some old) e = (old, refl)
registered_self mt code none e = (mt, ground (arith, eq_int_iff mt.code code))

under-register_self :
    (a b : MtV2) (v : View)
    → a.code ≡ b.code
    → (old : MtV2) × (under b.code (register a v).1 ≡ some old)
under-register_self a b v e =
    let (old, p) = registered_self a b.code (under b.code v) e in
    (
      old,
      under-register_map a b.code v
          ∙ ap (λ c. (registered a b.code (under c v) (under b.code v)).1) e
          ∙ p,
    )

-- What two calls, for `a` and then for `b`, come to, by whether they are of one code.
abbrev pub Orders : Bool → MtV2 → MtV2 → View → Type 0
Orders true a b v = register b (register a v).1 ≡ (false, (register a v).1)
Orders false a b v =
    ((register b (register a v).1).0 ≡ (register b v).0)
    × ((register a (register b v).1).0 ≡ (register a v).0)
    × ((register b (register a v).1).1 ≡ (register a (register b v).1).1)

-- Two calls of `NewMT` with different codes have in either order the results that each has alone, and
-- leave the same map: an equation in the quotient of the lists of entries by what is looked up. Of
-- two calls with one code the second returns false, and leaves the map as the first one does.
pub register_comm : (a b : MtV2) (v : View) → Orders (eq_int a.code b.code) a b v
register_comm a b v = elim (Bool-cases (eq_int a.code b.code)) [
  | inl same ↦
      let (old, taken) = under-register_self a b v ((eq_int_iff a.code b.code).0 same) in
      rw same (register_taken b old (register a v).1 taken)
  | inr other ↦
      let h : a.code ≢ b.code = λ e. cc (sym other ∙ (eq_int_iff a.code b.code).1 e) in
      let h' : b.code ≢ a.code = λ e. h (sym e) in
      rw other (
        registers_behind a b v h,
        registers_behind b a v h',
        View-ext _ _ (λ code.
            under-register_twice a b code v h
            ∙ registered_comm a b code (under a.code v) (under b.code v) (under code v) h
            ∙ sym (under-register_twice b a code v h')),
      )
]
