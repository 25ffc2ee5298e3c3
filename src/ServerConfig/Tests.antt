-- ===== src/ServerConfig/Tests.antt =====
-- m02-generics-and-idioms/solution-config/config.go: options at work.
use go_learning.Common.{[], ◌∷◌, ◌≡◌, refl}
use go_learning.GoErrors.{str}
use go_learning.ServerConfig.{new_config, with_read_timeout, with_write_timeout, apply}

last_wins :
    (new_config
      (str "default")
      (str ":8080")
      (with_read_timeout 1 ∷ with_write_timeout 3 ∷ with_read_timeout 2 ∷ [])).read_timeout
    ≡ 2
unfolding new_config apply with_read_timeout with_write_timeout
last_wins = refl
