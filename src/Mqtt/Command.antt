-- ===== src/Mqtt/Command.antt =====
-- internal/mqtt/client.go: filling a command template with a value.
use aerosmart_gateway.Base.{Bytes, codes}
use aerosmart_gateway.Base.Text.{replace_first}

-- ParseWriteRegisterCommand
unfoldable pub parse_write_register_command : Bytes → Bytes → Bytes
unfolding replace_first
parse_write_register_command template value = replace_first (codes "{value}") value template
