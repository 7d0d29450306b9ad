-- ===== src/Tests/Listing.antt =====
-- Runs of the listings of homelink/service/daemon.py.
use homelink.Common.{◌≤◌, ◌≡◌, refl, true, [], ◌∷◌}
use homelink.Common.Exc.{ok}
use homelink.Common.Json.{Value}
use homelink.Common.Text.{codes}
use homelink.Listing.{build_tree, bare, with_children, each_of, collect, grow}
use homelink.Listing.Depth.{levels, build_tree-levels}
use homelink.Tests.Service.{walk}

abbrev looped : Value
looped = with_children walk (codes "/a") (
    with_children walk (codes "/a")
      (with_children walk (codes "/a") (bare walk (codes "/a") true ∷ []) ∷ [])
    ∷ [])

build_tree_run : build_tree walk 3 (codes "/a") ≡ ok looped
unfolding build_tree each_of collect grow
build_tree_run = refl

build_tree-levels_example : levels looped ≤ 3
build_tree-levels_example = build_tree-levels walk 3 (codes "/a") looped build_tree_run
