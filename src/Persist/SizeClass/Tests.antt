-- ===== src/Persist/SizeClass/Tests.antt =====
-- Runs, and the theorems at concrete inputs.
use native.Mathlib.Decide.{dec_lt}
use my_no_sql_server_grpc.Base.{ℕ, arith, ◌≡◌, refl}
use my_no_sql_server_grpc.Persist.SizeClass.Bounds.{IsClassFor, size_class_for-IsClassFor}
use my_no_sql_server_grpc.Base.Outcome.{returns}
use my_no_sql_server_grpc.Persist.SizeClass.{double_until, size_class_for, Closer-below}

of_513 : size_class_for 513 ≡ returns 1024
unfolding size_class_for double_until Closer-below dec_lt
of_513 = refl

size_class_for-IsClassFor_example : (c : ℕ) × (size_class_for 5000 ≡ returns c) × IsClassFor 5000 c
size_class_for-IsClassFor_example = size_class_for-IsClassFor 5000 (omega arith)
