-- ===== src/Registers/Resettle/Schedule.antt =====
-- What resettle.go's `schedule` leaves pending.
use aerosmart_gateway.Base.{not, List, Bytes, eq_bytes, filter}
use aerosmart_gateway.Registers.Resettle.{PendingRefresh}

-- The entries of one register, and those of the others.
abbrev pub entries_of : Bytes → List PendingRefresh → List PendingRefresh
entries_of name pending = filter (λ e. eq_bytes e.register.name name) pending

abbrev pub others_than : Bytes → List PendingRefresh → List PendingRefresh
others_than name pending = filter (λ e. not (eq_bytes e.register.name name)) pending
