-- ===== src/Inserting/Threads.antt =====
-- A thread of the batch insert writes every row that it makes up.
use taobench.Prelude.{List, ◌++◌, ◌≡◌}
use taobench.Database.{Database}
use taobench.Loader.{Loader}
use taobench.Loader.Buffers.{InsertsBatches, edges_so_far, objects_so_far}
use taobench.Workload.{Source, Workload}
use taobench.Inserting.{NewRow}
use taobench.Inserting.Rows.{DrawsRows, edge_rows, object_rows}

module _ {source : Source} {w : Workload} {db : Database} (draws : DrawsRows source w)
    (law : InsertsBatches db) where
  -- The buffers and the tables hold the rows, in their order, after what they held.
  abbrev HasAdded : List NewRow → Loader → db.State → Loader → db.State → Type 0
  HasAdded rows l s l' s' =
      (edges_so_far law l' s' ≡ edges_so_far law l s ++ edge_rows rows)
      × (objects_so_far law l' s' ≡ objects_so_far law l s ++ object_rows rows)
