-- ===== src/Owner/Codes.antt =====
-- vsm/auth.py: what an exchange leaves of its code, and the session that it opens.

use nanihold_os.Prelude.{
  ℕ, ◌+◌, ◌≤◌, ◌<◌, String, ◌≡◌, refl, sym, ap, ◌∙◌, Bool, true, false, Option, none, some, ◌==◌,
  eq_iff, arith, is_some,
}
use nanihold_os.Result.{
  Error, Result, ok, err, invariant_violation, Ensures, Ensures-ok, Ensures-raise_if,
  Ensures-require,
}
use nanihold_os.Dict.{put, first_value, any_value, get-first_value}
use nanihold_os.Dict.First.{IsKeyed, first_value-put, first_value-put_only}
use nanihold_os.Ids.{Platform}
use nanihold_os.Models.Auth.{
  BootstrapCodeRecord, BrowserSessionRecord, BrowserSessionState, OwnerSessionGrant,
}
use nanihold_os.Models.Activation.{ActivationState}
use nanihold_os.Models.Event.{EventEnvelope, StoredEvent}
use nanihold_os.Models.Payload.{Payload}
use nanihold_os.Ledger.{finish, append}
use nanihold_os.Owner.{
  OwnerBootstrap, Service, Step, run, with_event_id, after_append, exchange_step, authenticate,
  code_of, is_active,
}

module _ (dump : EventEnvelope Payload → String) (platform : Platform) {A : Type 0} where
  -- A method that returns has made its writes.
  record HasWritten (r : Result (Step A)) (s t : Service) : Type 0 where
    pub step : Step A
    pub version : ℕ
    pub planned : r ≡ ok step
    pub written : t.owner ≡ step.write (record (s.owner) { version = version })

  after_append-HasWritten :
      (step : Step A) (s : Service) (event : EventEnvelope Payload)
      (x : Result (Option (StoredEvent Payload))) (a : A)
      → (after_append dump platform step s.owner (finish dump x event s.ledger)).0 ≡ ok a
      → HasWritten
          (ok step)
          s
          (after_append dump platform step s.owner (finish dump x event s.ledger)).1
  after_append-HasWritten step s event (err e) a h = absurd (cc)
  after_append-HasWritten step s event (ok (some stored)) a h = record {
    step = step;
    version = stored.event.stream_version;
    planned = refl;
    written = refl;
  }
  after_append-HasWritten step s event (ok none) a h = record {
    step = step;
    version = event.stream_version;
    planned = refl;
    written = refl;
  }

  with_id-HasWritten :
      (step : Step A) (key : String) (later : ℕ) (s : Service) (id : Result String) (a : A)
      → (with_event_id dump platform step key later s id).0 ≡ ok a
      → HasWritten (ok step) s (with_event_id dump platform step key later s id).1
  unfolding append
  with_id-HasWritten step key later s (err e) a h = absurd (cc)
  with_id-HasWritten step key later s (ok id) a h = after_append-HasWritten step s _ _ a h

  run-HasWritten :
      (r : Result (Step A)) (key : String) (later : ℕ) (s : Service) (a : A)
      → (run dump platform r key later s).0 ≡ ok a
      → HasWritten r s (run dump platform r key later s).1
  unfolding run
  run-HasWritten (err e) key later s a h = absurd (cc)
  run-HasWritten (ok step) key later s a h = with_id-HasWritten step key later s _ a h

module _ (sha strip : String → String) (code device_id : String) (lifetime : ℕ)
    (token session_id : String) (now : ℕ) where
  abbrev opened : OwnerBootstrap → BrowserSessionRecord
  opened o = record {
    session_id = session_id;
    owner_id = o.owner_id;
    device_id = device_id;
    token_sha256 = sha token;
    issued_at = now;
    expires_at = now + lifetime;
    state = BrowserSessionState.active;
  }

  -- The writes of an exchange: the code is used, the session is there.
  record Exchanged (o : OwnerBootstrap) (step : Step OwnerSessionGrant) : Type 0 where
    pub found : BootstrapCodeRecord
    pub known : code_of sha o code ≡ some found
    pub codes :
        (p : OwnerBootstrap)
        → (step.write p).codes
          ≡ put p.codes found.bootstrap_id (record found { used_at = some now })
    pub sessions :
        (p : OwnerBootstrap) → (step.write p).sessions ≡ put p.sessions session_id (opened o)
    pub owner : (p : OwnerBootstrap) → (step.write p).owner_id ≡ p.owner_id

  exchange-Exchanged :
      (o : OwnerBootstrap) (state : ActivationState) (there : Bool)
      → Ensures
          (Exchanged o)
          (exchange_step sha strip o state there code device_id lifetime token session_id now)
  unfolding exchange_step
  exchange-Exchanged o state there =
      let made : (found : BootstrapCodeRecord)
          → code_of sha o code ≡ some found
          → (step : Step OwnerSessionGrant)
          → ((p : OwnerBootstrap)
              → (step.write p).codes
                ≡ put p.codes found.bootstrap_id (record found { used_at = some now }))
          → ((p : OwnerBootstrap) → (step.write p).sessions ≡ put p.sessions session_id (opened o))
          → ((p : OwnerBootstrap) → (step.write p).owner_id ≡ p.owner_id)
          → Exchanged o step =
        λ found known step c s w. record {
          found = found;
          known = known;
          codes = c;
          sessions = s;
          owner = w;
        } in
      search (Ensures-ok, Ensures-raise_if, Ensures-require, made, refl) depth 24

  used_is_refused :
      (o : OwnerBootstrap) (state : ActivationState) (there : Bool) (found : BootstrapCodeRecord)
      (step : Step OwnerSessionGrant)
      → code_of sha o code ≡ some found
      → is_some found.used_at ≡ true
      → exchange_step sha strip o state there code device_id lifetime token session_id now ≡ ok step
      → ⊥
  unfolding exchange_step
  used_is_refused o state there found step known used h = ground arith

module _ (sha : String → String) (o : OwnerBootstrap) (token : String)
    (session : BrowserSessionRecord) (time : ℕ) where
  lets_in :
      first_value (λ (r : BrowserSessionRecord). r.token_sha256 == sha token) o.sessions
        ≡ some session
      → session.owner_id ≡ o.owner_id
      → is_active session.state ≡ true
      → time < session.expires_at
      → authenticate sha o token time ≡ ok session.device_id
  unfolding authenticate
  lets_in found own state before = ground (arith, eq_iff session.owner_id o.owner_id)

  keeps_out :
      first_value (λ (r : BrowserSessionRecord). r.token_sha256 == sha token) o.sessions
        ≡ some session
      → session.expires_at ≤ time
      → authenticate sha o token time
        ≡ err (invariant_violation "owner browser session is invalid or expired")
  unfolding authenticate
  keeps_out found past = ground arith

module _ (dump : EventEnvelope Payload → String) (platform : Platform)
    (sha strip : String → String) where
  -- When the codes of the service stand under their own ids: after an exchange that has returned a
  -- session, every exchange of the same code is refused, by whatever device, with whatever lifetime
  -- and at whatever time.
  pub code_opens_one_session :
      (s : Service) (state : ActivationState) (there : Bool) (code device_id : String)
      (lifetime : ℕ) (token session_id key : String) (now later : ℕ) (grant : OwnerSessionGrant)
      → IsKeyed (λ (r : BootstrapCodeRecord). r.bootstrap_id) s.owner.codes
      → (run dump platform
          (exchange_step sha strip s.owner state there code device_id lifetime token session_id now)
          key
          later
          s).0
        ≡ ok grant
      → (state' : ActivationState) (there' : Bool) (device' : String) (lifetime' : ℕ)
        (token' session' : String) (now' : ℕ)
      → (e : Error) × (exchange_step sha strip
            (run dump platform
              (exchange_step sha strip s.owner state there code device_id lifetime token session_id
                now)
              key
              later
              s).1.owner
            state'
            there'
            code
            device'
            lifetime'
            token'
            session'
            now'
          ≡ err e)
  code_opens_one_session s state there code device_id lifetime token session_id key now later grant
        keyed h state' there' device' lifetime' token' session' now' =
      let w =
        run-HasWritten dump platform
          (exchange_step sha strip s.owner state there code device_id lifetime token session_id now)
          key later s grant h in
      let x =
        (exchange-Exchanged sha strip code device_id lifetime token session_id now s.owner state
            there).at
          w.step w.planned in
      let after =
        (run dump platform
          (exchange_step sha strip s.owner state there code device_id lifetime token session_id now)
          key later s).1.owner in
      let used : BootstrapCodeRecord = record (x.found) { used_at = some now } in
      let known : code_of sha after code ≡ some used =
        ap (λ (o : OwnerBootstrap). code_of sha o code) w.written
        ∙ ap (first_value (λ (r : BootstrapCodeRecord). r.code_sha256 == sha code))
            (x.codes (record (s.owner) { version = w.version }))
        ∙ first_value-put (λ (r : BootstrapCodeRecord). r.bootstrap_id)
            (λ r. r.code_sha256 == sha code) x.found used s.owner.codes keyed x.known refl
            (get-first_value (λ (r : BootstrapCodeRecord). r.code_sha256 == sha code) x.found
              s.owner.codes keyed.distinct x.known).2 in
      refused
        (exchange_step sha strip after state' there' code device' lifetime' token' session' now')
        (λ step.
          used_is_refused sha strip code device' lifetime' token' session' now' after state' there'
            used step known refl)
    where
      refused :
          (r : Result (Step OwnerSessionGrant))
          → ((step : Step OwnerSessionGrant) → r ≡ ok step → ⊥)
          → (e : Error) × (r ≡ err e)
      refused (err e) never = (e, refl)
      refused (ok step) never = absurd (never step refl)

  -- When no session has the digest of the token that is drawn: the token of an exchange that has
  -- returned a session authenticates its device, up to the end of its lifetime and no longer.
  pub session_authenticates :
      (s : Service) (state : ActivationState) (there : Bool) (code device_id : String)
      (lifetime : ℕ) (token session_id key : String) (now later : ℕ) (grant : OwnerSessionGrant)
      → any_value (λ (r : BrowserSessionRecord). r.token_sha256 == sha token) s.owner.sessions
        ≡ false
      → (run dump platform
          (exchange_step sha strip s.owner state there code device_id lifetime token session_id now)
          key
          later
          s).0
        ≡ ok grant
      → (time : ℕ)
      → (time < now + lifetime
          → authenticate sha
              (run dump platform
                (exchange_step sha strip s.owner state there code device_id lifetime token
                  session_id now)
                key
                later
                s).1.owner
              token
              time
            ≡ ok device_id)
        × (now + lifetime ≤ time
            → (e : Error) × (authenticate sha
                  (run dump platform
                    (exchange_step sha strip s.owner state there code device_id lifetime token
                      session_id now)
                    key
                    later
                    s).1.owner
                  token
                  time
                ≡ err e))
  session_authenticates s state there code device_id lifetime token session_id key now later grant
        absent h time =
      let w =
        run-HasWritten dump platform
          (exchange_step sha strip s.owner state there code device_id lifetime token session_id now)
          key later s grant h in
      let x =
        (exchange-Exchanged sha strip code device_id lifetime token session_id now s.owner state
            there).at
          w.step w.planned in
      let after =
        (run dump platform
          (exchange_step sha strip s.owner state there code device_id lifetime token session_id now)
          key later s).1.owner in
      let session = opened sha strip code device_id lifetime token session_id now s.owner in
      let found : first_value (λ (r : BrowserSessionRecord). r.token_sha256 == sha token)
            after.sessions
          ≡ some session =
        ap
          (λ (o : OwnerBootstrap).
            first_value (λ (r : BrowserSessionRecord). r.token_sha256 == sha token) o.sessions)
          w.written
        ∙ ap (first_value (λ (r : BrowserSessionRecord). r.token_sha256 == sha token))
            (x.sessions (record (s.owner) { version = w.version }))
        ∙ first_value-put_only (λ (r : BrowserSessionRecord). r.token_sha256 == sha token)
            session_id session s.owner.sessions absent ((eq_iff (sha token) (sha token)).1 refl) in
      let own : after.owner_id ≡ s.owner.owner_id =
        ap (λ (o : OwnerBootstrap). o.owner_id) w.written
        ∙ x.owner (record (s.owner) { version = w.version }) in
      (
        λ before. lets_in sha after token session time found (sym own) refl before,
        λ past. (
          invariant_violation "owner browser session is invalid or expired",
          keeps_out sha after token session time found past,
        ),
      )
