-- ===== src/Backend.antt =====
-- types/types.go, and the list of backends of main.go.
use img.Common.{String, List, [], ◌∷◌}

abbrev pub auto_backend : String
auto_backend = "auto"

abbrev pub native_backend : String
native_backend = "native"

abbrev pub overlayfs_backend : String
overlayfs_backend = "overlayfs"

abbrev pub valid_backends : List String
valid_backends = auto_backend ∷ native_backend ∷ overlayfs_backend ∷ []
