-- ===== src/Driver/Life.antt =====
-- The life of a driver: how `load`, `init_driver` and `start` move it.
use Prim.Native.String.{String}
use text.Mathlib.TextEquality.{eq_iff}
use zeroxos_os.Base.{
  ◌≡◌, ◌≢◌, refl, ap, ◌∙◌, inl, inr, Bool, true, Bool-cases, Option, none, some, List, [], ◌∷◌,
  if◌then◌else◌, find, update_first, arith,
}
use zeroxos_os.Driver.{
  DriverState, loaded, initialized, active, Driver, DriverRegistry, named, find_driver, set_state,
  is_loaded, is_initialized, DriverResult, done, failed, load, init_driver, start,
}

-- The driver that a lookup finds, with another state.
abbrev pub in_state : DriverState → Option Driver → Option Driver
in_state s none = none
in_state s (some d) = some (record d { state = s })

same_name : (n : String) (d : Driver) → named n d ≡ true → d.name ≡ n
same_name n d e = (eq_iff d.name n).0 e

find-update_same :
    (n : String) (s : DriverState) (ds : List Driver)
    → find (named n) (update_first (named n) (λ d. record d { state = s }) ds)
      ≡ in_state s (find (named n) ds)
find-update_same n s [] = refl
find-update_same n s (d ∷ ds) = ground (arith, find-update_same n s ds)

find-update_other :
    (n j : String) (s : DriverState) (ds : List Driver)
    → n ≢ j
    → find (named j) (update_first (named n) (λ d. record d { state = s }) ds) ≡ find (named j) ds
find-update_other n j s [] ne = refl
find-update_other n j s (d ∷ ds) ne =
    ground (arith, find-update_other n j s ds ne, eq_iff d.name n, eq_iff d.name j)

pub find_driver-set_same :
    (r : DriverRegistry) (n : String) (s : DriverState)
    → find_driver (set_state r n s) n ≡ in_state s (find_driver r n)
unfolding find_driver set_state
find_driver-set_same r n s = find-update_same n s r.drivers

pub find_driver-set_other :
    (r : DriverRegistry) (n j : String) (s : DriverState)
    → n ≢ j
    → find_driver (set_state r n s) j ≡ find_driver r j
unfolding find_driver set_state
find_driver-set_other r n j s ne = find-update_other n j s r.drivers ne

load_found :
    (r : DriverRegistry) (n : String) (d : Driver)
    → find_driver r n ≡ some d
    → load r n ≡ (done, set_state r n loaded)
unfolding load
load_found r n d e = rw (load, e) refl

init_found :
    (r : DriverRegistry) (n : String) (d : Driver)
    → find_driver r n ≡ some d
    → is_loaded d.state ≡ true
    → init_driver r n ≡ (done, set_state r n initialized)
unfolding init_driver
init_found r n d e h = rw (init_driver, e, h) refl

start_found :
    (r : DriverRegistry) (n : String) (d : Driver)
    → find_driver r n ≡ some d
    → is_initialized d.state ≡ true
    → start r n ≡ (done, set_state r n active)
unfolding start
start_found r n d e h = rw (start, e, h) refl

-- A registered driver can be brought up, whatever state it is in: `load`, `init_driver` and
-- `start` each succeed after the other, they end with the driver running, and no other driver
-- changes.
pub bring_up :
    (r : DriverRegistry) (n : String) (d : Driver)
    → find_driver r n ≡ some d
    → let (a, r1) = load r n in
      let (b, r2) = init_driver r1 n in
      let (c, r3) = start r2 n in
      (a ≡ done)
      × (b ≡ done)
      × (c ≡ done)
      × (find_driver r3 n ≡ some (record d { state = active }))
      × ((j : String) → n ≢ j → find_driver r3 j ≡ find_driver r j)
bring_up r n d e =
    let r1 = set_state r n loaded in
    let r2 = set_state r1 n initialized in
    let r3 = set_state r2 n active in
    let e1 : find_driver r1 n ≡ some (record d { state = loaded }) =
      find_driver-set_same r n loaded ∙ ap (in_state loaded) e in
    let e2 : find_driver r2 n ≡ some (record d { state = initialized }) =
      find_driver-set_same r1 n initialized ∙ ap (in_state initialized) e1 in
    rw (load_found r n d e, init_found r1 n _ e1 refl, start_found r2 n _ e2 refl)
      (
        refl,
        refl,
        refl,
        find_driver-set_same r2 n active ∙ ap (in_state active) e2,
        λ j ne.
            find_driver-set_other r2 n j active ne
            ∙ (find_driver-set_other r1 n j initialized ne ∙ find_driver-set_other r n j loaded ne),
      )

-- What `init_driver` and `start` promise for the driver that the lookup finds.
abbrev pub Guarded :
    String
    → (DriverState → Bool)
    → DriverState
    → String
    → DriverRegistry
    → String
    → Option Driver
    → DriverResult × DriverRegistry
    → Type 0
Guarded missing allowed next refusal r n none out = out ≡ (failed missing, r)
Guarded missing allowed next refusal r n (some d) out =
    if allowed d.state
    then (out.0 ≡ done)
      × (find_driver out.1 n ≡ some (record d { state = next }))
      × ((j : String) → n ≢ j → find_driver out.1 j ≡ find_driver r j)
    else (out ≡ (failed refusal, r))

move-Guarded :
    (missing : String) (allowed : DriverState → Bool) (next : DriverState) (refusal : String)
    (r : DriverRegistry) (n : String) (o : Option Driver)
    → find_driver r n ≡ o
    → Guarded missing allowed next refusal r n o (elim o [
      | none ↦ (failed missing, r)
      | some d ↦ if allowed d.state then (done, set_state r n next) else (failed refusal, r)
    ])
move-Guarded missing allowed next refusal r n none e = refl
move-Guarded missing allowed next refusal r n (some d) e = elim (Bool-cases (allowed d.state)) [
  | inl y ↦ rw y (
    refl,
    find_driver-set_same r n next ∙ ap (in_state next) e,
    λ j. find_driver-set_other r n j next,
  )
  | inr y ↦ rw y refl
]

-- The states are passed in order: `init_driver` moves a loaded driver only, and `start` an
-- initialized one, and no other driver changes; in any other state, or where there is no driver of
-- the name, they report the error and leave the registry as it is.
pub init-start-Guarded :
    (r : DriverRegistry) (n : String)
    → Guarded "driver not found" is_loaded initialized "driver not loaded" r n
        (find_driver r n)
        (init_driver r n)
      × Guarded "driver not found" is_initialized active "driver not initialized" r n
          (find_driver r n)
          (start r n)
unfolding init_driver start
init-start-Guarded r n = (
  move-Guarded _ is_loaded initialized _ r n (find_driver r n) refl,
  move-Guarded _ is_initialized active _ r n (find_driver r n) refl,
)
