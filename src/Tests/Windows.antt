-- ===== src/Tests/Windows.antt =====
-- The theorems about pricing sessions, at one window of ten minutes.
use enterprise_agentops.Base.{
  ◌≤◌, ◌<◌, ◌≡◌, refl, String, true, false, none, some, List, [], ◌∷◌, arith,
}
use enterprise_agentops.Results.{ok}
use enterprise_agentops.Access.Security.{ℤ}
use enterprise_agentops.PricingSession.{
  PricingSession, start, remaining_seconds, covers, permits, active,
}
use enterprise_agentops.PricingSession.Window.{Call, call, answers, start-bounds}
use enterprise_agentops.PricingSession.Promise.{promises, answers-promises}

abbrev strip : String → String
strip s = s

abbrev opened : PricingSession
opened = record {
  id = "w1";
  started_by_user_id = "olga";
  started_at = 0;
  expires_at = 600000000;
  listing_ids = "lakeside" ∷ [];
}

opens : start strip "w1" ("lakeside" ∷ []) "olga" (ℤ.pos 10) 0 none ≡ (ok opened, some opened)
unfolding start
opens = refl

start-bounds_example : (0 < opened.expires_at) × (remaining_seconds 60000000 opened ≤ 1800)
start-bounds_example =
    start-bounds strip "w1" ("lakeside" ∷ []) "olga" (ℤ.pos 10) 0 60000000 none (some opened) opened
      (omega arith) opens

abbrev calls : List Call
calls =
    Call.starts "w1" ("lakeside" ∷ []) "olga" (ℤ.pos 10) 0
    ∷ Call.asks "lakeside" 5 5
    ∷ Call.reads 600000000
    ∷ Call.asks "lakeside" 600000001 600000001
    ∷ []

answers-promises_example : answers strip calls none ≡ promises strip calls none
answers-promises_example =
    answers-promises strip calls (omega arith, (omega arith, (omega arith, (omega arith, tt))))

-- The window permits its listing until it has lapsed.
permits_until_lapsed : answers strip calls none ≡ false ∷ true ∷ false ∷ false ∷ []
unfolding answers call start active permits covers
permits_until_lapsed = refl
