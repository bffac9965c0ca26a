-- ===== src/Mutex.antt =====
-- `sync.RWMutex` as one goroutine meets it that nobody else disturbs: an acquisition that the
-- goroutine's own holdings forbid never returns, which is `none`.
use tealis.Base.{ℕ, zero, suc, Option, none, some}

pub data Mutex : Type 0 where
  unlocked writing : Mutex
  reading : ℕ → Mutex

-- `Mu.RLock()`
unfoldable pub rlock : Mutex → Option Mutex
rlock unlocked = some (reading 1)
rlock writing = none
rlock (reading n) = some (reading (suc n))

-- `Mu.Lock()`: waits until there is neither a writer nor a reader.
unfoldable pub lock : Mutex → Option Mutex
lock unlocked = some writing
lock writing = none
lock (reading zero) = some writing
lock (reading (suc n)) = none
