-- ===== src/StoreQueue/Samples.antt =====
-- Two stores and a load that is forwarded from the younger one.
use ai_chip_design_platform.Common.{
  ℤ, pos, true, none, some, Option, List, [], ◌∷◌, ◌++◌, ◌≡◌, refl,
}
use ai_chip_design_platform.Coherence.Order.{in_order}
use ai_chip_design_platform.StoreQueue.{
  Kind, load, store, MemOp, LsqRecord, lsq_forward, lsq_store_order, mem_ops_of, check_forward,
  take_access, take_op, ops_of, check_store_order, run, passes,
}
use ai_chip_design_platform.StoreQueue.Forwarding.{run-forwards}
use ai_chip_design_platform.StoreQueue.Draining.{Ascending, commits_to, run-Ascending}

queue : Unit {0}
unfolding in_order mem_ops_of check_forward take_access take_op check_store_order run
queue = tt

abbrev op : Kind → (value : Option ℤ) → MemOp
op kind value = record { kind = kind; addr = some (pos 64); value = value }

abbrev record_of : (seq commit : ℤ) → MemOp → LsqRecord
record_of seq commit o = record {
  seq = some seq;
  commit = some commit;
  mem_reads = none;
  mem_writes = none;
  op = elim o.kind [ load ↦ "LD" | store ↦ "store" ];
  addr = o.addr;
  value = o.value;
}

-- The records are not in program order.
abbrev forwarding : List LsqRecord
forwarding =
    record_of (pos 3) (pos 30) (op load (some (pos 8)))
    ∷ record_of (pos 1) (pos 20) (op store (some (pos 7)))
    ∷ record_of (pos 2) (pos 25) (op store (some (pos 8)))
    ∷ []

forwarding-passes : passes (run forwarding) ≡ true
unfolding queue
forwarding-passes = refl

abbrev stores_before : List (Option ℤ × MemOp)
stores_before =
    (some (pos 20), op store (some (pos 7))) ∷ (some (pos 25), op store (some (pos 8))) ∷ []

program_order :
    ops_of (in_order (λ (r : LsqRecord). r.seq) forwarding)
    ≡ stores_before ++ (some (pos 30), op load (some (pos 8))) ∷ []
unfolding queue
program_order = refl

-- A store whose value is not told leaves the value of the store before it as the expected one.
untold_store :
    (run (
      record_of (pos 1) (pos 1) (op store (some (pos 7)))
      ∷ record_of (pos 2) (pos 2) (op store none)
      ∷ record_of (pos 3) (pos 3) (op load (some (pos 8)))
      ∷ [])).violations
    ≡ lsq_forward ∷ []
unfolding queue
untold_store = refl

out_of_order :
    (run (
      record_of (pos 1) (pos 9) (op store (some (pos 7)))
      ∷ record_of (pos 2) (pos 2) (op store (some (pos 7)))
      ∷ [])).violations
    ≡ lsq_store_order ∷ []
unfolding queue
out_of_order = refl

run-forwards_example : pos 8 ≡ pos 8
run-forwards_example =
    run-forwards forwarding stores_before [] (some (pos 30)) (op load (some (pos 8))) (pos 64)
      (pos 8) (pos 8) forwarding-passes program_order refl refl refl refl

run-Ascending_example :
    Ascending (commits_to (pos 64) (ops_of (in_order (λ (r : LsqRecord). r.seq) forwarding)))
run-Ascending_example = run-Ascending forwarding (pos 64) forwarding-passes

-- The loads of a record come before its stores.
loads_first :
    mem_ops_of (record {
      seq = none;
      commit = none;
      mem_reads = some (record { addr = some (pos 4); value = none } ∷ []);
      mem_writes = some (record { addr = some (pos 8); value = some (pos 1) } ∷ []);
      op = "";
      addr = none;
      value = none;
    })
    ≡ record { kind = load; addr = some (pos 4); value = none }
      ∷ record { kind = store; addr = some (pos 8); value = some (pos 1) }
      ∷ []
unfolding queue
loads_first = refl
