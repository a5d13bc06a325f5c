-- ===== src/Driver/Crash.antt =====
-- Crashes of drivers, and sequences of calls after them.
use Prim.Native.String.{String}
use text.Mathlib.Text
use text.Mathlib.TextEquality.{eq_iff}
use zeroxos_os.Base.{
  ◌≡◌, ◌≢◌, refl, sym, ap, ◌∙◌, subst, inl, inr, true, false, Bool-cases, some, List, [], ◌∷◌,
  if◌then◌else◌, arith,
}
use zeroxos_os.Driver.{
  loaded, initialized, active, crashed, Driver, DriverRegistry, find_driver, set_state, is_user,
  load, init_driver, start, crash,
}
use zeroxos_os.Driver.Life.{in_state, find_driver-set_same, find_driver-set_other}

-- The calls of the registry that change a state.
pub data Call : Type 0 where
  call_load call_init call_start call_crash : String → Call

pub perform : DriverRegistry → Call → DriverRegistry
perform r (call_load n) = (load r n).1
perform r (call_init n) = (init_driver r n).1
perform r (call_start n) = (start r n).1
perform r (call_crash n) = crash r n

pub perform_all : DriverRegistry → List Call → DriverRegistry
perform_all r [] = r
perform_all r (c ∷ cs) = perform_all (perform r c) cs

abbrev pub LoadsNot : String → List Call → Type 0
LoadsNot n [] = Unit
LoadsNot n (call_load m ∷ cs) = (m ≢ n) × LoadsNot n cs
LoadsNot n (c ∷ cs) = LoadsNot n cs

crash_found :
    (r : DriverRegistry) (n : String) (d : Driver)
    → find_driver r n ≡ some d
    → crash r n ≡ (
        if is_user d.location
        then set_state (set_state r n crashed) n active
        else set_state r n crashed)
unfolding crash
crash_found r n d e = rw (crash, e) refl

crash_kernel :
    (r : DriverRegistry) (n : String) (d : Driver)
    → find_driver r n ≡ some d
    → is_user d.location ≡ false
    → find_driver (crash r n) n ≡ some (record d { state = crashed })
crash_kernel r n d e h =
    rw (crash_found r n d e, h) (find_driver-set_same r n crashed ∙ ap (in_state crashed) e)

refused :
    (r : DriverRegistry) (n : String) (d : Driver)
    → find_driver r n ≡ some (record d { state = crashed })
    → ((init_driver r n).1 ≡ r) × ((start r n).1 ≡ r)
unfolding init_driver start
refused r n d e = (rw (init_driver, e) refl, rw (start, e) refl)

perform-other :
    (r : DriverRegistry) (n j : String)
    → n ≢ j
    → (find_driver (load r n).1 j ≡ find_driver r j)
      × (find_driver (init_driver r n).1 j ≡ find_driver r j)
      × (find_driver (start r n).1 j ≡ find_driver r j)
      × (find_driver (crash r n) j ≡ find_driver r j)
unfolding load init_driver start crash
perform-other r n j ne = (
  ground (arith, find_driver-set_other r n j loaded ne),
  ground (arith, find_driver-set_other r n j initialized ne),
  ground (arith, find_driver-set_other r n j active ne),
  ground (
    arith,
    find_driver-set_other r n j crashed ne,
    find_driver-set_other (set_state r n crashed) n j active ne,
  ),
)

abbrev pub Down : String → Driver → DriverRegistry → Type 0
Down n d r = find_driver r n ≡ some (record d { state = crashed })

perform-Down :
    (r : DriverRegistry) (n : String) (d : Driver) (c : Call)
    → is_user d.location ≡ false
    → LoadsNot n (c ∷ [])
    → Down n d r
    → Down n d (perform r c)
unfolding perform
perform-Down r n d (call_load m) h a e = (perform-other r m n a.0).0 ∙ e
perform-Down r n d (call_init m) h a e = elim (Bool-cases (Text.◌==◌ m n)) [
  | inl y ↦
      subst (λ k. Down n d (init_driver r k).1) (sym ((eq_iff m n).0 y))
        (rw ((refused r n d e).0) e)
  | inr y ↦ (perform-other r m n (λ p. ground (arith, y, (eq_iff m n).1 p))).1 ∙ e
]
perform-Down r n d (call_start m) h a e = elim (Bool-cases (Text.◌==◌ m n)) [
  | inl y ↦
      subst (λ k. Down n d (start r k).1) (sym ((eq_iff m n).0 y)) (rw ((refused r n d e).1) e)
  | inr y ↦ (perform-other r m n (λ p. ground (arith, y, (eq_iff m n).1 p))).2 ∙ e
]
perform-Down r n d (call_crash m) h a e = elim (Bool-cases (Text.◌==◌ m n)) [
  | inl y ↦
      subst (λ k. Down n d (crash r k)) (sym ((eq_iff m n).0 y))
        (crash_kernel r n (record d { state = crashed }) e h)
  | inr y ↦ (perform-other r m n (λ p. ground (arith, y, (eq_iff m n).1 p))).3 ∙ e
]

perform_all-Down :
    (cs : List Call) (r : DriverRegistry) (n : String) (d : Driver)
    → is_user d.location ≡ false
    → LoadsNot n cs
    → Down n d r
    → Down n d (perform_all r cs)
unfolding perform_all
perform_all-Down [] r n d h a e = e
perform_all-Down (call_load m ∷ cs) r n d h a e =
    perform_all-Down cs _ n d h a.1 (perform-Down r n d (call_load m) h (a.0, tt) e)
perform_all-Down (call_init m ∷ cs) r n d h a e =
    perform_all-Down cs _ n d h a (perform-Down r n d (call_init m) h tt e)
perform_all-Down (call_start m ∷ cs) r n d h a e =
    perform_all-Down cs _ n d h a (perform-Down r n d (call_start m) h tt e)
perform_all-Down (call_crash m ∷ cs) r n d h a e =
    perform_all-Down cs _ n d h a (perform-Down r n d (call_crash m) h tt e)

-- A registered driver that is not in user mode and crashes stays crashed through any calls that do
-- not load it again: no `init_driver`, `start` or crash of it, and no call on another driver,
-- revives it.
pub crash-stays_down :
    (r : DriverRegistry) (n : String) (d : Driver) (cs : List Call)
    → find_driver r n ≡ some d
    → is_user d.location ≡ false
    → LoadsNot n cs
    → find_driver (perform_all (crash r n) cs) n ≡ some (record d { state = crashed })
crash-stays_down r n d cs e h a = perform_all-Down cs (crash r n) n d h a (crash_kernel r n d e h)

-- A crash of a user-mode driver leaves it running, whatever its state was, one that was never
-- loaded included.
pub crash_user :
    (r : DriverRegistry) (n : String) (d : Driver)
    → find_driver r n ≡ some d
    → is_user d.location ≡ true
    → find_driver (crash r n) n ≡ some (record d { state = active })
crash_user r n d e h =
    rw (crash_found r n d e, h)
      (find_driver-set_same (set_state r n crashed) n active
        ∙ ap (in_state active) (find_driver-set_same r n crashed ∙ ap (in_state crashed) e))
