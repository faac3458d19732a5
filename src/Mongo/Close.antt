-- ===== src/Mongo/Close.antt =====
-- `Close` of MongoSynk: the end of the mgo session of its collection, if it has one.
use synk.Base.{Option, none, some}
use synk.Result.{Error}

-- The session of `ms.Coll`, as what its Close does
unfoldable pub close : {W : Type 0} → Option (W → W) → W → Error × W
close none w = (none, w)
close (some close_session) w = (none, close_session w)
