-- ===== src/Serving/Tests.antt =====
-- The servers of m04 and m10 at a concrete life: the listener was closed, then a signal came, and the
-- shutdown timed out.
use go_learning.Common.{[], ◌∷◌, some, Bytes, ◌≡◌}
use go_learning.GoErrors.{sentinel, server_closed, deadline_exceeded}
use go_learning.Serving.{listen_returned, signalled, customer_api, api}
use go_learning.Serving.Laws.{End, EndsBy, code_at, failure, servers_end}

abbrev no_variables : Bytes → Bytes
no_variables name = []

servers_end_example :
    let os = listen_returned (some (sentinel server_closed)) ∷ signalled ∷ [] in
    let late = some (sentinel deadline_exceeded) in
    (end : End) × EndsBy os end
    × ((customer_api no_variables late os).1 ≡ code_at (failure late) end)
    × ((api no_variables os).2 ≡ code_at 0 end)
servers_end_example =
    servers_end no_variables (some (sentinel deadline_exceeded))
      (listen_returned (some (sentinel server_closed)) ∷ signalled ∷ [])
