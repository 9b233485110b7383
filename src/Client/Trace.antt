-- ===== src/Client/Trace.antt =====
-- What the history of a run shows.
use kidp.Prelude.{ℕ, suc, Bool, true, false, [], ◌∷◌, if◌then◌else◌}
use kidp.Client.{Call, History, update, http}

abbrev pub is_http : Call → Bool
is_http (http r) = true
is_http _ = false

-- A write of a whole object, as the one that takes a finalizer away.
abbrev pub is_update : Call → Bool
is_update (update o) = true
is_update _ = false

abbrev pub count : (Call → Bool) → History → ℕ
count p [] = 0
count p (c ∷ h) = let n = count p h in if p c then suc n else n
