-- ===== src/Database/Session.antt =====
-- A database session of SQLAlchemy, as the code uses one: what it has written so far and what is
-- committed. `rollback` forgets the writes since the last commit.
use rebecca_reseller_bot.Database.Models.{Database}

pub record Session : Type 0 where
  pub written : Database
  pub committed : Database

abbrev pub commit : Session → Session
commit s = record s { committed = s.written }

abbrev pub rollback : Session → Session
rollback s = record s { written = s.committed }

abbrev pub write : (Database → Database) → Session → Session
write f s = record s { written = f s.written }
