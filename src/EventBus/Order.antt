-- ===== src/EventBus/Order.antt =====
-- Which events a pass of the worker takes.
use leadto_sales_re.Base.{ℕ, ◌≡◌, true, List, ◌++◌, arith, All}
use mathlib.Core.List.{Perm}
use leadto_sales_re.Base.Sort.{TotalPreorder, IsSorted, take-sort_best}
use leadto_sales_re.Database.{Database, OutboxEventRow}
use leadto_sales_re.EventBus.{not_later, order_by_time, unprocessed, batch}

by_time : TotalPreorder not_later
by_time = record { total = λ x y h. ground arith; trans = λ x y z h k. ground arith }

-- A batch is in the order of the events' times. Together with some other rows it is the unprocessed
-- rows of the outbox, and no row of the batch is later than one of the others: the oldest events go
-- first.
pub batch_oldest :
    (batch_size : ℕ) (db : Database)
    → IsSorted not_later (batch batch_size db)
      × ((others : List OutboxEventRow) × Perm
            (batch batch_size db ++ others)
            (unprocessed db.outbox_events)
          × All (λ r. All (λ s. not_later r s ≡ true) others) (batch batch_size db))
unfolding batch order_by_time
batch_oldest batch_size db =
    take-sort_best not_later by_time batch_size (unprocessed db.outbox_events)
