-- ===== src/Controller/Streams/Acquire.antt =====
-- Which pooled connections are passed over.
use rps.Base.{
  ℕ, zero, suc, ◌≡◌, Bool, true, false, List, [], ◌∷◌, ◌++◌, length, err, drop, All, if◌then◌else◌,
  ltb, arith,
}
use rps.Controller.Streams.{Pooled, dead_on_write, dead_on_read, silent, answers, acquire, no_live}

abbrev pub is_dead : Pooled → Bool
is_dead dead_on_write = true
is_dead dead_on_read = true
is_dead _ = false

-- A pooled connection that died while it was idle costs one of the tries and nothing else: behind
-- fewer dead ones than there are tries, the first other connection decides as if it stood first;
-- behind as many, no connection is found, and exactly those tries are taken from the pool.
pub acquire-dead :
    (retries : ℕ) (closed : Bool) (dead : List Pooled) (live : Pooled) (rest : List Pooled)
    → All (λ (p : Pooled). is_dead p ≡ true) dead
    → is_dead live ≡ false
    → acquire retries closed (dead ++ live ∷ rest) ≡ (
        if ltb (length dead) retries
        then acquire 1 closed (live ∷ rest)
        else (err no_live, drop retries (dead ++ live ∷ rest)))
unfolding acquire
acquire-dead zero closed dead live rest all h = ground arith
acquire-dead (suc retries) closed [] dead_on_write rest all h = absurd (ground arith)
acquire-dead (suc retries) closed [] dead_on_read rest all h = absurd (ground arith)
acquire-dead (suc retries) closed [] silent rest all h = ground arith
acquire-dead (suc retries) closed [] (answers response) rest all h = ground arith
acquire-dead (suc retries) closed (dead_on_write ∷ dead) live rest all h =
    ground (arith, acquire-dead retries closed dead live rest all.1 h)
acquire-dead (suc retries) closed (dead_on_read ∷ dead) live rest all h =
    ground (arith, acquire-dead retries closed dead live rest all.1 h)
acquire-dead (suc retries) closed (silent ∷ dead) live rest all h = absurd (ground arith)
acquire-dead (suc retries) closed (answers response ∷ dead) live rest all h = absurd (ground arith)
