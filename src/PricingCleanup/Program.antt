-- ===== src/PricingCleanup/Program.antt =====
-- What a pass of app/pricing_cleanup_runner.py does, one transaction or one request to the outside at a time. Between
-- two actions of a pass anything else may happen.
use enterprise_agentops.Base.{ℕ, String, Bool, Option, none, some, List, [], ◌∷◌, ◌++◌}
use enterprise_agentops.Results.{Answer}
use enterprise_agentops.Values.{Fields}
use enterprise_agentops.Storage.Host.{Host}
use enterprise_agentops.AuditStore.{record_event}
use enterprise_agentops.PricingCleanup.Record.{CleanupState, Cleanup}
use enterprise_agentops.PricingCleanup.Store
use enterprise_agentops.PricingCleanup.Store.{World, tick, draw, now_of}

pub data Action : Type 0 where
  now : Action
  new_token : Action
  expired_claims : (now : ℕ) → Action
  due : (now : ℕ) → Action
  claim : (id token : String) (now : ℕ) → Action
  begin_delete : (id token : String) → Action
  release : (id token : String) → Action
  resolve : (id : String) (state : CleanupState) (resolution token : String) → Action
  resolve_unclaimed : (id : String) (state : CleanupState) (resolution : String) → Action
  bands_for : (listing_id : String) → Action
  writes_enabled : Action
  overrides : (listing_id pms : String) → Action
  send_delete : (row : Cleanup) (body : Fields) → Action
  audit : (event : String) (details : Fields) (run_id : Option String) → Action

-- `bands_for` gives the listing's `automation_enabled`, if it has bands. The provider's calls are
-- refused by `PriceLabsUnavailable`; any other exception, such as `PriceLabsConfigurationError`, ends the pass.
abbrev pub Reply : Action → Type 0
Reply Action.now = ℕ
Reply Action.new_token = String
Reply (Action.expired_claims _) = List Cleanup
Reply (Action.due _) = List Cleanup
Reply (Action.claim _ _ _) = Bool
Reply (Action.begin_delete _ _) = Bool
Reply (Action.release _ _) = Bool
Reply (Action.resolve _ _ _ _) = Bool
Reply (Action.resolve_unclaimed _ _ _) = Bool
Reply (Action.bands_for _) = Option Bool
Reply Action.writes_enabled = Bool
Reply (Action.overrides _ _) = Answer (List Fields)
Reply (Action.send_delete _ _) = Answer Bool
Reply (Action.audit _ _ _) = Unit

pub data Program (A : Type 0) : Type 0 where
  return : A → Program A
  -- an exception, which nothing in a pass catches
  raise : Program A
  perform : (x : Action) → (Reply x → Program A) → Program A

infixl 10 ◌>>=◌ ◌>>◌
unfoldable pub ◌>>=◌ : {A B : Type 0} → Program A → (A → Program B) → Program B
return a >>= f = f a
raise >>= f = raise
perform x k >>= f = perform x (λ r. k r >>= f)

abbrev pub ◌>>◌ : {A B : Type 0} → Program A → Program B → Program B
first >> second = first >>= λ _. second

abbrev pub call : (x : Action) → Program (Reply x)
call x = perform x return

-- The process's environment variables and bands, and the requests to PriceLabs, by what lies outside
pub record Provider (Outside : Type 0) : Type 0 where
  pub writes_enabled : Outside → Bool
  pub bands_for : String → Outside → Option Bool
  pub overrides : String → String → Outside → Answer (List Fields) × Outside
  -- the request of `_send("DELETE", …)`: whether it was confirmed
  pub delete : String → Fields → Outside → Answer Bool × Outside

module _ {Outside : Type 0} (host : Host) (provider : Provider Outside) where
  abbrev with_outside : World Outside → Outside → World Outside
  with_outside w o = record w { storage = record w.storage { outside = o } }

  -- The details of an audit event are texts, truths and nothing else, which `json.dumps` accepts.
  unfoldable pub act : (x : Action) → World Outside → Reply x × World Outside
  act Action.now w = (now_of host w, tick host w)
  act Action.new_token w = (host.uuid4 w.storage.uuids, draw host w)
  act (Action.expired_claims t) w = (Store.expired_claims t w, w)
  act (Action.due t) w = (Store.due t w, w)
  act (Action.claim id token t) w = Store.claim id token t w
  act (Action.begin_delete id token) w = Store.begin_delete id token w
  act (Action.release id token) w = Store.release id token w
  act (Action.resolve id state resolution token) w = Store.resolve host id state resolution token w
  act (Action.resolve_unclaimed id state resolution) w =
      Store.resolve_unclaimed host id state resolution w
  act (Action.bands_for listing_id) w = (provider.bands_for listing_id w.storage.outside, w)
  act Action.writes_enabled w = (provider.writes_enabled w.storage.outside, w)
  act (Action.overrides listing_id pms) w =
      let (r, o) = provider.overrides listing_id pms w.storage.outside in (r, with_outside w o)
  act (Action.send_delete row body) w =
      let (r, o) = provider.delete row.listing_id body w.storage.outside in
      (r, record (with_outside w o) { sent = w.sent ++ row.id ∷ [] })
  act (Action.audit event details run_id) w =
      let (r, s) = record_event host event details run_id none w.storage in
      (tt, record w { storage = s })

  -- A program that nothing interrupts: what it returns, unless it raises, and the world
  unfoldable pub run : {A : Type 0} → Program A → World Outside → Option A × World Outside
  unfolding act
  run (return a) w = (some a, w)
  run raise w = (none, w)
  run (perform x k) w = let (r, w') = act x w in run (k r) w'
