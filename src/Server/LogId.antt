-- ===== src/Server/LogId.antt =====
-- The request id that tools/branchscore_server.cpp writes to its log.
use branchscore.Base.{ℕ, zero, suc, ◌≤◌, Option, none, some, [], ◌∷◌, Bytes, length, arith}
use branchscore.Server.Replies.{safe_bytes, safe_log_id}

abbrev pub AllPrintable : Bytes → Type 0
AllPrintable [] = Unit
AllPrintable (c ∷ cs) = (0x20 ≤ c) × (c ≤ 0x7e) × AllPrintable cs

safe_bytes-AllPrintable :
    (room : ℕ) (id : Bytes)
    → AllPrintable (safe_bytes room id) × (length (safe_bytes room id) ≤ room)
unfolding safe_bytes
safe_bytes-AllPrintable zero id = (tt, omega arith)
safe_bytes-AllPrintable (suc room) [] = (tt, omega arith)
safe_bytes-AllPrintable (suc room) (c ∷ cs) =
    let rest = safe_bytes-AllPrintable room cs in
    ((ground arith, ground arith, rest.0), omega (arith, rest.1))

-- Whatever id a client supplies, what is logged for it has 1 to 96 bytes, each printable ASCII: no
-- id can break the line of the log.
pub safe_log_id-AllPrintable :
    (id : Option Bytes)
    → AllPrintable (safe_log_id id) × (1 ≤ length (safe_log_id id)) × (length (safe_log_id id) ≤ 96)
unfolding safe_log_id
safe_log_id-AllPrintable none = ((omega arith, omega arith, tt), omega arith, omega arith)
safe_log_id-AllPrintable (some []) = ((omega arith, omega arith, tt), omega arith, omega arith)
safe_log_id-AllPrintable (some (c ∷ cs)) =
    let safe = safe_bytes-AllPrintable 96 (c ∷ cs) in
    (safe.0, unfold safe_bytes in omega arith, safe.1)
