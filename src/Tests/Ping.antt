-- ===== src/Tests/Ping.antt =====
-- Examples for the ping buffer.
use project_tox_core.Prelude.{◌≡◌, arith, not, ◌&&◌, ◌==◌, ◌++◌, ◌∷◌, []}
use project_tox_core.Ping.{Ping, new_ping, add_ping, is_pinging, matches}
use project_tox_core.Ping.Refine.{IsValid, contents, live, make_room, fresh, any, add_ping_refines}
use project_tox_core.Ping.History.{Reach, created, added, is_waiting, is_pinging_exact, Reach-Inv}
use project_tox_core.Tests.Sample.{host, other_host}

abbrev one_ping : Ping
one_ping = (add_ping 100 9001 new_ping host).0

one_ping-Reach : Reach 100 one_ping
one_ping-Reach = added 100 9001 host (created 100) (omega arith)

is_pinging_exact_example :
    (is_pinging 104 one_ping host 9001).1
    ≡ not ((host.ip == 0) && (9001 == 0))
      && any (λ e. matches host 9001 e && is_waiting 104 e) (contents one_ping)
is_pinging_exact_example =
    is_pinging_exact 100 104 9001 one_ping host one_ping-Reach (omega arith) (omega arith)

add_ping_refines_example :
    let (p', id) = add_ping 103 77 one_ping other_host in
    IsValid p'
    × (id ≡ 77)
    × (contents p' ≡ make_room (live 103 (contents one_ping)) ++ fresh 103 77 other_host ∷ [])
add_ping_refines_example =
    add_ping_refines 103 77 one_ping other_host (Reach-Inv one_ping-Reach).valid
