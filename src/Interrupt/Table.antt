-- ===== src/Interrupt/Table.antt =====
-- The two tables of `isr!` lines: kernel/src/arch/x86_64/interrupt/isrs.rs, which defines a stub for
-- each interrupt, and set_isrs.rs beside it, which enters each stub in the IDT.
use simple_os_rs.Common.{ℕ, Bool, true, false, List, [], ◌∷◌, ◌++◌}

-- A line `isr!(isr_stub_i, number)`, or one with `error`; the stub is known by the `i` of its name.
pub record Isr : Type 0 where
  pub name : ℕ
  pub number : ℕ
  pub error : Bool

abbrev pub isr : ℕ → ℕ → Isr
isr name number = record { name = name; number = number; error = false }

abbrev pub isr_error : ℕ → ℕ → Isr
isr_error name number = record { name = name; number = number; error = true }

abbrev isrs_low : List Isr
isrs_low =
    isr 0 0
    ∷ isr 1 1
    ∷ isr 2 2
    ∷ isr 3 3
    ∷ isr 4 4
    ∷ isr 5 5
    ∷ isr 6 6
    ∷ isr 7 7
    ∷ isr_error 8 8
    ∷ isr 9 9
    ∷ isr_error 10 10
    ∷ isr_error 11 11
    ∷ isr_error 12 12
    ∷ isr_error 13 13
    ∷ isr_error 14 14
    ∷ isr 15 15
    ∷ isr 16 16
    ∷ isr_error 17 17
    ∷ isr 18 18
    ∷ isr 19 19
    ∷ isr 20 20
    ∷ isr 21 21
    ∷ isr 22 22
    ∷ isr 23 23
    ∷ isr 24 24
    ∷ isr 25 25
    ∷ isr 26 26
    ∷ isr 27 27
    ∷ isr 28 28
    ∷ isr 29 29
    ∷ isr 30 30
    ∷ isr 31 31
    ∷ isr 32 32
    ∷ isr 33 33
    ∷ isr 34 34
    ∷ isr 35 35
    ∷ isr 36 36
    ∷ isr 37 37
    ∷ isr 38 38
    ∷ isr 39 39
    ∷ isr 40 40
    ∷ isr 41 41
    ∷ isr 42 42
    ∷ isr 43 43
    ∷ isr 44 44
    ∷ isr 45 45
    ∷ isr 46 46
    ∷ isr 47 47
    ∷ isr 48 48
    ∷ isr 49 49
    ∷ isr 50 50
    ∷ isr 51 51
    ∷ isr 52 52
    ∷ isr 53 53
    ∷ isr 54 54
    ∷ isr 55 55
    ∷ isr 56 56
    ∷ isr 57 57
    ∷ isr 58 58
    ∷ isr 59 59
    ∷ isr 60 60
    ∷ isr 61 61
    ∷ isr 62 62
    ∷ isr 63 63
    ∷ isr 64 64
    ∷ isr 65 65
    ∷ isr 66 66
    ∷ isr 67 67
    ∷ isr 68 68
    ∷ isr 69 69
    ∷ isr 70 70
    ∷ isr 71 71
    ∷ isr 72 72
    ∷ isr 73 73
    ∷ isr 74 74
    ∷ isr 75 75
    ∷ isr 76 76
    ∷ isr 77 77
    ∷ isr 78 78
    ∷ isr 79 79
    ∷ isr 80 80
    ∷ isr 81 81
    ∷ isr 82 82
    ∷ isr 83 83
    ∷ isr 84 84
    ∷ isr 85 85
    ∷ isr 86 86
    ∷ isr 87 87
    ∷ isr 88 88
    ∷ isr 89 89
    ∷ isr 90 90
    ∷ isr 91 91
    ∷ isr 92 92
    ∷ isr 93 93
    ∷ isr 94 94
    ∷ isr 95 95
    ∷ isr 96 96
    ∷ isr 97 97
    ∷ isr 98 98
    ∷ isr 99 99
    ∷ isr 100 100
    ∷ isr 101 101
    ∷ isr 102 102
    ∷ isr 103 103
    ∷ isr 104 104
    ∷ isr 105 105
    ∷ isr 106 106
    ∷ isr 107 107
    ∷ isr 108 108
    ∷ isr 109 109
    ∷ isr 110 110
    ∷ isr 111 111
    ∷ isr 112 112
    ∷ isr 113 113
    ∷ isr 114 114
    ∷ isr 115 115
    ∷ isr 116 116
    ∷ isr 117 117
    ∷ isr 118 118
    ∷ isr 119 119
    ∷ isr 120 120
    ∷ isr 121 121
    ∷ isr 122 122
    ∷ isr 123 123
    ∷ isr 124 124
    ∷ isr 125 125
    ∷ isr 126 126
    ∷ isr 127 127
    ∷ []

abbrev isrs_high : List Isr
isrs_high =
    isr 128 128
    ∷ isr 129 129
    ∷ isr 130 130
    ∷ isr 131 131
    ∷ isr 132 132
    ∷ isr 133 133
    ∷ isr 134 134
    ∷ isr 135 135
    ∷ isr 136 136
    ∷ isr 137 137
    ∷ isr 138 138
    ∷ isr 139 139
    ∷ isr 140 140
    ∷ isr 141 141
    ∷ isr 142 142
    ∷ isr 143 143
    ∷ isr 144 144
    ∷ isr 145 145
    ∷ isr 146 146
    ∷ isr 147 147
    ∷ isr 148 148
    ∷ isr 149 149
    ∷ isr 150 150
    ∷ isr 151 151
    ∷ isr 152 152
    ∷ isr 153 153
    ∷ isr 154 154
    ∷ isr 155 155
    ∷ isr 156 156
    ∷ isr 157 157
    ∷ isr 158 158
    ∷ isr 159 159
    ∷ isr 160 160
    ∷ isr 161 161
    ∷ isr 162 162
    ∷ isr 163 163
    ∷ isr 164 164
    ∷ isr 165 165
    ∷ isr 166 166
    ∷ isr 167 167
    ∷ isr 168 168
    ∷ isr 169 169
    ∷ isr 170 170
    ∷ isr 171 171
    ∷ isr 172 172
    ∷ isr 173 173
    ∷ isr 174 174
    ∷ isr 175 175
    ∷ isr 176 176
    ∷ isr 177 177
    ∷ isr 178 178
    ∷ isr 179 179
    ∷ isr 180 180
    ∷ isr 181 181
    ∷ isr 182 182
    ∷ isr 183 183
    ∷ isr 184 184
    ∷ isr 185 185
    ∷ isr 186 186
    ∷ isr 187 187
    ∷ isr 188 188
    ∷ isr 189 189
    ∷ isr 190 190
    ∷ isr 191 191
    ∷ isr 192 192
    ∷ isr 193 193
    ∷ isr 194 194
    ∷ isr 195 195
    ∷ isr 196 196
    ∷ isr 197 197
    ∷ isr 198 198
    ∷ isr 199 199
    ∷ isr 200 200
    ∷ isr 201 201
    ∷ isr 202 202
    ∷ isr 203 203
    ∷ isr 204 204
    ∷ isr 205 205
    ∷ isr 206 206
    ∷ isr 207 207
    ∷ isr 208 208
    ∷ isr 209 209
    ∷ isr 210 210
    ∷ isr 211 211
    ∷ isr 212 212
    ∷ isr 213 213
    ∷ isr 214 214
    ∷ isr 215 215
    ∷ isr 216 216
    ∷ isr 217 217
    ∷ isr 218 218
    ∷ isr 219 219
    ∷ isr 220 220
    ∷ isr 221 221
    ∷ isr 222 222
    ∷ isr 223 223
    ∷ isr 224 224
    ∷ isr 225 225
    ∷ isr 226 226
    ∷ isr 227 227
    ∷ isr 228 228
    ∷ isr 229 229
    ∷ isr 230 230
    ∷ isr 231 231
    ∷ isr 232 232
    ∷ isr 233 233
    ∷ isr 234 234
    ∷ isr 235 235
    ∷ isr 236 236
    ∷ isr 237 237
    ∷ isr 238 238
    ∷ isr 239 239
    ∷ isr 240 240
    ∷ isr 241 241
    ∷ isr 242 242
    ∷ isr 243 243
    ∷ isr 244 244
    ∷ isr 245 245
    ∷ isr 246 246
    ∷ isr 247 247
    ∷ isr 248 248
    ∷ isr 249 249
    ∷ isr 250 250
    ∷ isr 251 251
    ∷ isr 252 252
    ∷ isr 253 253
    ∷ isr 254 254
    ∷ isr 255 255
    ∷ []

abbrev set_isrs_low : List Isr
set_isrs_low =
    isr 0 0
    ∷ isr 1 1
    ∷ isr 2 2
    ∷ isr 3 3
    ∷ isr 4 4
    ∷ isr 5 5
    ∷ isr 6 6
    ∷ isr 7 7
    ∷ isr_error 8 8
    ∷ isr 9 9
    ∷ isr_error 10 10
    ∷ isr_error 11 11
    ∷ isr_error 12 12
    ∷ isr_error 13 13
    ∷ isr_error 14 14
    ∷ isr 15 15
    ∷ isr 16 16
    ∷ isr_error 17 17
    ∷ isr 18 18
    ∷ isr 19 19
    ∷ isr 20 20
    ∷ isr 21 21
    ∷ isr 22 22
    ∷ isr 23 23
    ∷ isr 24 24
    ∷ isr 25 25
    ∷ isr 26 26
    ∷ isr 27 27
    ∷ isr 28 28
    ∷ isr 29 29
    ∷ isr 30 30
    ∷ isr 31 31
    ∷ isr 32 32
    ∷ isr 33 33
    ∷ isr 34 34
    ∷ isr 35 35
    ∷ isr 36 36
    ∷ isr 37 37
    ∷ isr 38 38
    ∷ isr 39 39
    ∷ isr 40 40
    ∷ isr 41 41
    ∷ isr 42 42
    ∷ isr 43 43
    ∷ isr 44 44
    ∷ isr 45 45
    ∷ isr 46 46
    ∷ isr 47 47
    ∷ isr 48 48
    ∷ isr 49 49
    ∷ isr 50 50
    ∷ isr 51 51
    ∷ isr 52 52
    ∷ isr 53 53
    ∷ isr 54 54
    ∷ isr 55 55
    ∷ isr 56 56
    ∷ isr 57 57
    ∷ isr 58 58
    ∷ isr 59 59
    ∷ isr 60 60
    ∷ isr 61 61
    ∷ isr 62 62
    ∷ isr 63 63
    ∷ isr 64 64
    ∷ isr 65 65
    ∷ isr 66 66
    ∷ isr 67 67
    ∷ isr 68 68
    ∷ isr 69 69
    ∷ isr 70 70
    ∷ isr 71 71
    ∷ isr 72 72
    ∷ isr 73 73
    ∷ isr 74 74
    ∷ isr 75 75
    ∷ isr 76 76
    ∷ isr 77 77
    ∷ isr 78 78
    ∷ isr 79 79
    ∷ isr 80 80
    ∷ isr 81 81
    ∷ isr 82 82
    ∷ isr 83 83
    ∷ isr 84 84
    ∷ isr 85 85
    ∷ isr 86 86
    ∷ isr 87 87
    ∷ isr 88 88
    ∷ isr 89 89
    ∷ isr 90 90
    ∷ isr 91 91
    ∷ isr 92 92
    ∷ isr 93 93
    ∷ isr 94 94
    ∷ isr 95 95
    ∷ isr 96 96
    ∷ isr 97 97
    ∷ isr 98 98
    ∷ isr 99 99
    ∷ isr 100 100
    ∷ isr 101 101
    ∷ isr 102 102
    ∷ isr 103 103
    ∷ isr 104 104
    ∷ isr 105 105
    ∷ isr 106 106
    ∷ isr 107 107
    ∷ isr 108 108
    ∷ isr 109 109
    ∷ isr 110 110
    ∷ isr 111 111
    ∷ isr 112 112
    ∷ isr 113 113
    ∷ isr 114 114
    ∷ isr 115 115
    ∷ isr 116 116
    ∷ isr 117 117
    ∷ isr 118 118
    ∷ isr 119 119
    ∷ isr 120 120
    ∷ isr 121 121
    ∷ isr 122 122
    ∷ isr 123 123
    ∷ isr 124 124
    ∷ isr 125 125
    ∷ isr 126 126
    ∷ isr 127 127
    ∷ []

abbrev set_isrs_high : List Isr
set_isrs_high =
    isr 128 128
    ∷ isr 129 129
    ∷ isr 130 130
    ∷ isr 131 131
    ∷ isr 132 132
    ∷ isr 133 133
    ∷ isr 134 134
    ∷ isr 135 135
    ∷ isr 136 136
    ∷ isr 137 137
    ∷ isr 138 138
    ∷ isr 139 139
    ∷ isr 140 140
    ∷ isr 141 141
    ∷ isr 142 142
    ∷ isr 143 143
    ∷ isr 144 144
    ∷ isr 145 145
    ∷ isr 146 146
    ∷ isr 147 147
    ∷ isr 148 148
    ∷ isr 149 149
    ∷ isr 150 150
    ∷ isr 151 151
    ∷ isr 152 152
    ∷ isr 153 153
    ∷ isr 154 154
    ∷ isr 155 155
    ∷ isr 156 156
    ∷ isr 157 157
    ∷ isr 158 158
    ∷ isr 159 159
    ∷ isr 160 160
    ∷ isr 161 161
    ∷ isr 162 162
    ∷ isr 163 163
    ∷ isr 164 164
    ∷ isr 165 165
    ∷ isr 166 166
    ∷ isr 167 167
    ∷ isr 168 168
    ∷ isr 169 169
    ∷ isr 170 170
    ∷ isr 171 171
    ∷ isr 172 172
    ∷ isr 173 173
    ∷ isr 174 174
    ∷ isr 175 175
    ∷ isr 176 176
    ∷ isr 177 177
    ∷ isr 178 178
    ∷ isr 179 179
    ∷ isr 180 180
    ∷ isr 181 181
    ∷ isr 182 182
    ∷ isr 183 183
    ∷ isr 184 184
    ∷ isr 185 185
    ∷ isr 186 186
    ∷ isr 187 187
    ∷ isr 188 188
    ∷ isr 189 189
    ∷ isr 190 190
    ∷ isr 191 191
    ∷ isr 192 192
    ∷ isr 193 193
    ∷ isr 194 194
    ∷ isr 195 195
    ∷ isr 196 196
    ∷ isr 197 197
    ∷ isr 198 198
    ∷ isr 199 199
    ∷ isr 200 200
    ∷ isr 201 201
    ∷ isr 202 202
    ∷ isr 203 203
    ∷ isr 204 204
    ∷ isr 205 205
    ∷ isr 206 206
    ∷ isr 207 207
    ∷ isr 208 208
    ∷ isr 209 209
    ∷ isr 210 210
    ∷ isr 211 211
    ∷ isr 212 212
    ∷ isr 213 213
    ∷ isr 214 214
    ∷ isr 215 215
    ∷ isr 216 216
    ∷ isr 217 217
    ∷ isr 218 218
    ∷ isr 219 219
    ∷ isr 220 220
    ∷ isr 221 221
    ∷ isr 222 222
    ∷ isr 223 223
    ∷ isr 224 224
    ∷ isr 225 225
    ∷ isr 226 226
    ∷ isr 227 227
    ∷ isr 228 228
    ∷ isr 229 229
    ∷ isr 230 230
    ∷ isr 231 231
    ∷ isr 232 232
    ∷ isr 233 233
    ∷ isr 234 234
    ∷ isr 235 235
    ∷ isr 236 236
    ∷ isr 237 237
    ∷ isr 238 238
    ∷ isr 239 239
    ∷ isr 240 240
    ∷ isr 241 241
    ∷ isr 242 242
    ∷ isr 243 243
    ∷ isr 244 244
    ∷ isr 245 245
    ∷ isr 246 246
    ∷ isr 247 247
    ∷ isr 248 248
    ∷ isr 249 249
    ∷ isr 250 250
    ∷ isr 251 251
    ∷ isr 252 252
    ∷ isr 253 253
    ∷ isr 254 254
    ∷ isr 255 255
    ∷ []

abbrev pub isrs : List Isr
isrs = isrs_low ++ isrs_high

abbrev pub set_isrs : List Isr
set_isrs = set_isrs_low ++ set_isrs_high
