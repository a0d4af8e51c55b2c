-- ===== src/Json/Tests.antt =====
-- The printer of JSON values at a concrete input.
use mavio_mcp.Base.{◌≡◌, refl, true}
use mavio_mcp.Json.{null, bool, num, arr, obj, nil, cons, end, field}
use mavio_mcp.Json.Print.{stringify}

print_tests :
    stringify (obj (field "a\n" (arr (cons (num 1) (cons null nil))) (field "q\"" (bool true) end)))
    ≡ "{\"a\\n\":[1,null],\"q\\\"\":true}"
unfolding stringify mavio_mcp.Base.Text.show
print_tests = refl
