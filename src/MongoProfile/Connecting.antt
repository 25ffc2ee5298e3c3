-- ===== src/MongoProfile/Connecting.antt =====
-- m07-mongodb/solution-mongodb/mongodb.go: `Connect`. The driver's calls are parameters; clients are
-- numbers. The error of `Disconnect` is ignored.
use go_learning.Common.{ℕ, List, ◌∷◌, Option, none, some, Bytes, refl}
use go_learning.GoErrors.{str, Err, wrapped, Result, ok, err}
use go_learning.Handles.{close_handle, NoLeak, close-open}

pub record MongoDriver : Type 0 where
  pub dial : (uri : Bytes) → Result ℕ
  pub ping : ℕ → Option Err

abbrev pinged : List ℕ → ℕ → Option Err → Result ℕ × List ℕ
pinged open_ones client none = (ok client, open_ones)
pinged open_ones client (some e) = (err (wrapped (str "ping: ") e), close_handle client open_ones)

abbrev dialed : MongoDriver → List ℕ → Result ℕ → Result ℕ × List ℕ
dialed driver open_ones (err e) = (err (wrapped (str "connect: ") e), open_ones)
dialed driver open_ones (ok client) = pinged (client ∷ open_ones) client (driver.ping client)

unfoldable pub connect : MongoDriver → Bytes → List ℕ → Result ℕ × List ℕ
connect driver uri open_ones = dialed driver open_ones (driver.dial uri)

module _ (driver : MongoDriver) (uri : Bytes) (before : List ℕ) where
  pinged-NoLeak :
      (client : ℕ) (p : Option Err) → NoLeak (λ h. h) before (pinged (client ∷ before) client p)
  pinged-NoLeak client none = refl
  pinged-NoLeak client (some e) = close-open client before

  dialed-NoLeak : (r : Result ℕ) → NoLeak (λ h. h) before (dialed driver before r)
  dialed-NoLeak (err e) = refl
  dialed-NoLeak (ok client) = pinged-NoLeak client (driver.ping client)

  -- `Connect` leaves a client open when it returns it, and nothing when it fails.
  pub connect-NoLeak : NoLeak (λ h. h) before (connect driver uri before)
  unfolding connect
  connect-NoLeak = dialed-NoLeak (driver.dial uri)
