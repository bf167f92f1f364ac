-- ===== src/Finalizer.antt =====
-- The finalizer that the three reconcilers share, bucket_controller.go:37.
use garage_s3_operator.Api.{ObjectMeta}
use garage_s3_operator.Platform.{Util}
use garage_s3_operator.Base.{String, Bool, true, false, if◌then◌else◌}

abbrev pub finalizer : String
finalizer = "s3.spiarh.fr/finalizer"

module _ (u : Util) where
  -- `!DeletionTimestamp.IsZero()`
  abbrev pub is_deleting : ObjectMeta → Bool
  is_deleting m = if u.is_zero m.deletion_timestamp then false else true

  abbrev pub has_finalizer : ObjectMeta → Bool
  has_finalizer m = u.contains_finalizer m.finalizers finalizer

  abbrev pub with_finalizer : ObjectMeta → ObjectMeta
  with_finalizer m = record m { finalizers = u.add_finalizer m.finalizers finalizer }

  abbrev pub without_finalizer : ObjectMeta → ObjectMeta
  without_finalizer m = record m { finalizers = u.remove_finalizer m.finalizers finalizer }

  -- `if !ContainsFinalizer { AddFinalizer }`
  abbrev pub ensure_finalizer : ObjectMeta → ObjectMeta
  ensure_finalizer m = if has_finalizer m then m else with_finalizer m
