-- ===== src/Session/Invariants.antt =====
-- What stays true over any number of packets through `SSLPP_process`.
use in_free_time.Base.{
  ℕ, ◌≡◌, refl, ◌∙◌, true, false, Option, none, some, List, [], ◌∷◌, All, arith, length, bit_or,
}
use in_free_time.Base.Bits.{bit_at, bit_at-bit_or, bit_at-le-one}
use in_free_time.Base.Flags.{has, without, bit_at-without, has-bit_at}
use in_free_time.Ssl.Runs.{Runs, runs}
use in_free_time.Ssl.Direction.{Lacks, absent, bit_at-absent}
use in_free_time.Session.{SsnData, World, encrypted_flag, sslpp_disable_flag}
use in_free_time.Session.Process.{State, state_flags, encrypted_turn}
use in_free_time.Session.Events.{
  Invariant, IsKept, missing, kept, Event, process_all, IsAllowed, IsDecodable,
}
use in_free_time.Session.Keeps.{process_all-IsKept}
use in_free_time.Session.Turns.{clear_turn-From, From-le, off}
use in_free_time.Session.Calls.{
  IsQuiet, emit-IsQuiet, flush_IsSoft, initialize_IsSoft, heartbleed_alerts-IsQuiet,
  clear_turn-IsQuiet,
}

Runs-result {ℓ κ} :
    {A : Type ℓ} {P : A → Type κ} {m : Option A} → Runs P m → (a : A) × (m ≡ some a) × P a
Runs-result (runs {a} p) = (a, refl, p)

-- A session, if there is one, has the four lengths, and its flags have `P`.
pub data Holding (P : ℕ → Type 0) : Option SsnData → Type 0 where
  no_session : Holding P none
  session : {sd : SsnData} → P sd.ssn_flags → length sd.partial_rec_len ≡ 4 → Holding P (some sd)

-- Nothing is asked of the flags.
abbrev pub Anything : ℕ → Type 0
Anything f = Unit {0}

-- The invariant that asks for the four lengths alone
abbrev well_formed : Invariant
well_formed = record {
  Configured = λ config. Unit;
  New = λ f. Unit;
  Missing = Unit;
  Flags = λ f. Unit;
  Holds = λ w. Unit;
  decoded = λ f l. tt;
  fresh = λ m. tt;
  cleared = λ f p. tt;
  alerted = λ type b w h. tt;
  flushed = λ w h. tt;
  initialized = λ w h. tt;
  encrypted = λ f new w on p n h. (tt, tt);
  clear = λ host config packet f new w off c p n h. (tt, tt);
}

-- The test of the encrypted session as its bit
on→bit : (f : ℕ) → has f encrypted_flag ≡ true → bit_at 26 f ≡ 1
on→bit f h = ground (arith, has-bit_at 26 f, h)

bit→on : (f : ℕ) → bit_at 26 f ≡ 1 → has f encrypted_flag ≡ true
bit→on f h = ground (arith, has-bit_at 26 f, h)

bit-cleared : (f : ℕ) → bit_at 26 (without f state_flags) ≡ bit_at 26 f
bit-cleared f = bit_at-without 26 f state_flags refl

merged_stays : (f new : ℕ) → has f encrypted_flag ≡ true → has (bit_or f new) encrypted_flag ≡ true
merged_stays f new on =
    bit→on (bit_or f new) (omega (arith, bit_at-bit_or 26 f new, on→bit f on, bit_at-le-one 26 new))

encrypted_turn_stays :
    (f new : ℕ) (w : World)
    → has f encrypted_flag ≡ true
    → has (encrypted_turn f new w).flags encrypted_flag ≡ true
unfolding encrypted_turn
encrypted_turn_stays f new w on = merged_stays f new on

-- A set bit 26 stays: only the temporary flags are cleared.
abbrev encrypted_stays : Invariant
encrypted_stays = record {
  Configured = λ config. Unit;
  New = λ f. Unit;
  Missing = ⊥;
  Flags = λ f. has f encrypted_flag ≡ true;
  Holds = λ w. Unit;
  decoded = λ f l. tt;
  fresh = λ m. absurd m;
  cleared = λ f p. bit→on (without f state_flags) (bit-cleared f ∙ on→bit f p);
  alerted = λ type b w h. tt;
  flushed = λ w h. tt;
  initialized = λ w h. tt;
  encrypted = λ f new w on p n h. (encrypted_turn_stays f new w p, tt);
  clear = λ host config packet f new w off c p n h. absurd (cc (p, off));
}

lacks→off : {f : ℕ} → Lacks 26 f → has f encrypted_flag ≡ false
lacks→off {f} (absent p) = ground (arith, has-bit_at 26 f, p)

-- Without `SSLPP_DISABLE_FLAG` the session stays unencrypted, and nothing is turned off.
abbrev stays_quiet : Invariant
stays_quiet = record {
  Configured = λ config. has config.flags sslpp_disable_flag ≡ false;
  New = Lacks 26;
  Missing = Unit;
  Flags = Lacks 26;
  Holds = IsQuiet;
  decoded = λ f l. l;
  fresh = λ m. absent refl;
  cleared = λ f p. absent (bit-cleared f ∙ bit_at-absent p);
  alerted = heartbleed_alerts-IsQuiet;
  flushed = λ w. emit-IsQuiet _ w flush_IsSoft;
  initialized = λ w. emit-IsQuiet _ w initialize_IsSoft;
  encrypted = λ f new w on p n h. absurd (cc (on, lacks→off p));
  clear = λ host config packet f new w _ c p n h. (
    absent (
        omega (
          arith,
          From-le (clear_turn-From 26 f new host config packet w (off c)),
          bit_at-absent p,
          bit_at-absent n,
        )),
    clear_turn-IsQuiet config c host packet f new w h,
  );
}

-- What the invariants say of the session
IsKept-Holding :
    {I : Invariant} {s : State} → IsKept I s → Holding I.Flags s.session × I.Holds s.world
IsKept-Holding (missing m h) = (no_session, h)
IsKept-Holding (kept p four h) = (session p four, h)

Holding-IsKept :
    (I : Invariant) (o : Option SsnData) (w : World)
    → I.Missing
    → I.Holds w
    → Holding I.Flags o
    → IsKept I (record { session = o; world = w })
Holding-IsKept I none w m h no_session = missing m h
Holding-IsKept I (some sd) w m h (session p four) = kept p four h

-- What is there, if anything, has `P`.
pub data Every {A : Type 0} (P : A → Type 0) : Option A → Type 0 where
  every_none : Every P none
  every_some : {a : A} → P a → Every P (some a)

every-there : {A : Type 0} {P : A → Type 0} {a : A} → Every P (some a) → P a
every-there (every_some h) = h

every-value : {A : Type 0} {P : A → Type 0} {o : Option A} → Every P o → (a : A) → o ≡ some a → P a
every-value q a e = every-there (rw e at q)

-- A packet that may be processed without `SSLPP_DISABLE_FLAG`: its payload is decoded without a read
-- behind it, the configuration, if there is one, lacks that flag, and the flags that the callback
-- may offer lack that of an encrypted session.
pub record IsGentle (e : Event) : Type 0 where
  pub decodable : IsDecodable e.packet
  pub gentle : Every (λ config. has config.flags sslpp_disable_flag ≡ false) e.config
  pub offers : Every (Lacks 26) e.host.flow_flags

IsGentle-IsAllowed :
    (events : List Event) → All IsGentle events → All (IsAllowed stays_quiet) events
IsGentle-IsAllowed [] all = tt
IsGentle-IsAllowed (e ∷ events) (g, all) = (
  record {
    decodable = g.decodable;
    configured = every-value g.gentle;
    offers = every-value g.offers;
  },
  IsGentle-IsAllowed events all,
)

-- Any number of packets whose payloads all are decoded without a read behind them, all under
-- configurations without `SSLPP_DISABLE_FLAG`, for which the callback does not offer the flag of an
-- encrypted session: from no session, or from one that is not marked as encrypted and keeps four
-- partial lengths, and from a world whose calls so far neither disabled the detection nor stopped the
-- inspection, they are processed to the end. The session, if there is one, is then still not marked,
-- and every call that was made is an alert, a flush of the stream or an initialization.
pub process_all-quiet :
    (events : List Event) (o : Option SsnData) (w : World)
    → All IsGentle events
    → Holding (Lacks 26) o
    → IsQuiet w
    → (t : State) × (process_all events (record { session = o; world = w }) ≡ some t)
      × Holding (Lacks 26) t.session
      × IsQuiet t.world
process_all-quiet events o w all h soft =
    let (t, e, k) = Runs-result (
      process_all-IsKept stays_quiet events (record { session = o; world = w })
        (IsGentle-IsAllowed events all) (Holding-IsKept stays_quiet o w tt soft h)) in
    (t, e, (IsKept-Holding k).0, (IsKept-Holding k).1)
