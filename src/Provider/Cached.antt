-- ===== src/Provider/Cached.antt =====
-- sdk.Context.CacheContext: what a call writes is kept or dropped as a whole.
use interchain_security.Common.Outcome.{Outcome, ok, err, panic, Handler, Error}

-- A call in a cached context: its writes are kept only if it succeeds. A panic is not caught.
abbrev pub commit :
    {S : Type 0}
    → (Error → Handler S (Unit {0}))
    → S
    → Outcome (Unit {0}) × S
    → Outcome (Unit {0}) × S
commit on_error s (ok u, s') = (ok u, s')
commit on_error s (err e, s') = on_error e s
commit on_error s (panic, s') = (panic, s')

abbrev pub cached :
    {S : Type 0} → Handler S (Unit {0}) → (Error → Handler S (Unit {0})) → Handler S (Unit {0})
cached h on_error s = commit on_error s (h s)
