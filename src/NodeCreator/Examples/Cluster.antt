-- ===== src/NodeCreator/Examples/Cluster.antt =====
-- The controller in a loop with the API server of a cluster, for the node of machine 7.
use bigfleet_demo.Common.{
  ◌*◌, ◌≡◌, refl, true, false, [], ◌∷◌, arith, Text, codes, text_eq, text_has_eq,
}
use bigfleet_demo.Common.Dict.{lookup, insert, delete}
use bigfleet_demo.Common.Decimal.{decimal, padded, value_from}
use bigfleet_demo.Host.State.{second}
use bigfleet_demo.Host.Http.{cut_prefix, trim_prefix}
use bigfleet_demo.Backend.Nodes.{has_prefix, label}
use bigfleet_demo.Fakecloud.Catalog.{machine_id}
use bigfleet_demo.NodeCreator.Hash.{dwell_for, fnv32, fnv_from}
use bigfleet_demo.NodeCreator.Names.{
  cloud_of, realistic_node_name, trailing_num, leading_digits, atoi, name_for, onprem_name, padded2,
}
use bigfleet_demo.NodeCreator.Tick.{
  tick, mint, mint_one, note, is_set, finish_tick, no_minting, keep_live, tend_all, tend, reclaim,
  keep, correct, is_provisioning, first_seen, create, new_node,
}
use bigfleet_demo.NodeCreator.Tick.Asked.{wanted_in, seen_in, deletes}
use bigfleet_demo.NodeCreator.Tick.Mint.{creates}
use bigfleet_demo.NodeCreator.Cluster.{gets_exact, exists_in}
use bigfleet_demo.NodeCreator.Cluster.Gone.{unwanted_gone}
use bigfleet_demo.NodeCreator.Cluster.Comes.{asks_in, wanted_comes}
use bigfleet_demo.NodeCreator.Examples.{
  timing, host_name, no_memory, host_node, with_machine, without_machine,
}

unwanted_gone_example :
    exists_in timing host_name
      (without_machine (100 * second)
        ∷ without_machine (110 * second)
        ∷ without_machine (125 * second)
        ∷ [])
      no_memory
      true
    ≡ false
unfolding wanted_in seen_in tick mint mint_one note is_set finish_tick no_minting keep_live tend_all
    tend reclaim keep correct is_provisioning first_seen create insert delete label lookup text_eq
    creates deletes gets_exact
unwanted_gone_example =
    unwanted_gone timing host_name (without_machine (100 * second))
      (without_machine (110 * second) ∷ []) (without_machine (125 * second)) no_memory true refl
      (refl, (refl, tt)) refl (omega arith)
      ((refl, refl, refl), ((refl, refl, refl), ((refl, refl, refl), tt)))

abbrev up_name : Text
up_name = codes "un-onprem-0007"

wanted_comes_example :
    exists_in timing host_name
      (with_machine (100 * second) false []
        ∷ with_machine (110 * second) false []
        ∷ with_machine (140 * second) false (host_node ∷ [])
        ∷ [])
      no_memory
      false
    ≡ true
unfolding asks_in wanted_in seen_in tick mint mint_one note is_set finish_tick no_minting keep_live
    tend_all tend reclaim keep correct is_provisioning first_seen create insert delete
    realistic_node_name name_for onprem_name padded2 decimal padded machine_id cloud_of has_prefix
    cut_prefix trim_prefix label lookup trailing_num leading_digits atoi text_eq value_from
    dwell_for fnv32 fnv_from creates deletes gets_exact new_node
wanted_comes_example =
    wanted_comes timing host_name up_name (with_machine (100 * second) false [])
      (with_machine (110 * second) false [] ∷ [])
      (with_machine (140 * second) false (host_node ∷ [])) no_memory false (omega arith)
      (omega arith) (refl, (refl, tt)) refl (omega arith)
      ((refl, refl, refl), ((refl, refl, refl), ((refl, refl, refl), tt)))
