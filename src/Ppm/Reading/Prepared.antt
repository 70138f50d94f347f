-- ===== src/Ppm/Reading/Prepared.antt =====
-- The model that `Read` of mozolm/models/ppm_as_fst_model.cc leaves behind.
use mozolm.Double.{Double}
use mozolm.Ppm.{Ppm}
