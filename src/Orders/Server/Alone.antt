-- ===== src/Orders/Server/Alone.antt =====
-- The steps that handlers share, each run without others beside it.
use delivery_plus.Prelude.{◌≡◌, refl, ap, Option, none, some}
use delivery_plus.Shared.Errors.{not_found}
use delivery_plus.Proc.{Result, err, ◌>>=◌, or_throw, combinators}
use delivery_plus.Proc.Alone.{run_alone}
use delivery_plus.Orders.Store.{Order, Database, selected, without_fee_split}
use delivery_plus.Orders.Server.{Server, Handler, transaction}

-- A transaction commits, and then the rest.
pub transaction_alone :
    {A B : Type 0} (f : Database → A × Database) (k : A → Handler B) (s : Server) (a : A)
    (db' : Database)
    → f s.db ≡ (a, db')
    → run_alone (transaction f >>= k) s ≡ run_alone (k a) (record s { db = db' })
unfolding transaction combinators
transaction_alone f k s a db' e = ap (λ x. run_alone (k x.0) (record s { db = x.1 })) e

-- What a read of the order gives, and then the rest.
pub after_found :
    (found : Option Order) (s : Server) (f : Order → Handler Order)
    (rest : Order → Result Order × Server)
    → ((o : Order) → found ≡ some o → run_alone (f (without_fee_split o)) s ≡ rest o)
    → run_alone (or_throw not_found (selected found) >>= f) s
      ≡ elim found [ none ↦ (err not_found, s) | some o ↦ rest o ]
unfolding combinators
after_found none s f rest h = refl
after_found (some o) s f rest h = h o refl
